-- ===== src/Examples/Systems.antt =====
-- A deployment over PostgreSQL with a run node that has a limiter, an events node, a flow node whose resource cannot be
-- made, and a command node.
use node_red_contrib_bull.Prelude.{
  ◌&&◌, ◌≤◌, ltb, All, List, [], ◌∷◌, if◌then◌else◌, ◌≡◌, refl, true, false, none, some,
}
use node_red_contrib_bull.Js.Number.{nat, of_string, is_integer, is_below}
use node_red_contrib_bull.Js.Value.{
  plain, failure, str, Fields, end, field, ok, is_present, to_number,
}
use node_red_contrib_bull.Js.Objects.{find, lookup}
use node_red_contrib_bull.Nodes.Fields.{
  WorkerOptions, positive_integer, parse_positive_integer, worker_options_of,
}
use node_red_contrib_bull.Js.Text.{elem, includes}
use node_red_contrib_bull.Nodes.Failures.{describe_backend_failure}
use node_red_contrib_bull.Nodes.Backend.{
  read_backend_status, report_backend_failure, publish_backend_status, has,
}
use node_red_contrib_bull.Nodes.Backend
use node_red_contrib_bull.Nodes.Backend.Reports
use node_red_contrib_bull.Nodes.Resources.{
  get_queue, create_flow_producer, create_queue_events, Settings, built, throws, on_close,
  create_resource, create_worker,
}
use node_red_contrib_bull.Nodes.Resources.Counts.{count, owned, connected_at}
use node_red_contrib_bull.Nodes.Resources.Handed.{succeeds}
use node_red_contrib_bull.Nodes.Startup.{
  step_node, resource_errors, started, on_error, step_postgres,
}
use node_red_contrib_bull.Nodes.Lifecycle.{
  open_flow_node, open_command_node, run_node, open_run_node, open_events_node, step_kind,
}
use node_red_contrib_bull.Nodes.Deployment.{
  closes_node, deliver, Deployment, Node, undeployed, Event, opens_run, opens_events, opens_flow,
  opens_command, node_event, run, step,
}
use node_red_contrib_bull.Nodes.Deployment.Backends.{closes}
use node_red_contrib_bull.Nodes.Deployment.Servers.{builds, run-on_close}
use node_red_contrib_bull.Nodes.Deployment.Failing.{run-once, step-once}
use node_red_contrib_bull.Nodes.Deployment.Readers.{run-told}
use node_red_contrib_bull.Nodes.Deployment.Isolation.{node_user, used_by, closes_node-others}
use node_red_contrib_bull.Nodes.Deployment.Telemetry.{run-complaints}

abbrev limited_node : Fields
limited_node = field "limiterMax" (str "5") (field "limiterDuration" (str "1000") end)

abbrev limited_options : WorkerOptions
limited_options = record {
  concurrency = nat 1;
  max_started_attempts = nat 100;
  limiter = some (record { max = nat 5; duration = nat 1000 });
  autorun = false;
}

limited_accepted : worker_options_of limited_node true ≡ ok limited_options
unfolding worker_options_of parse_positive_integer positive_integer is_present find lookup to_number
    of_string is_integer is_below
limited_accepted = refl

abbrev postgres : Settings
postgres = record { postgres = true; telemetry = false }

abbrev system : List Event
system =
    opens_run limited_node false (λ options. built)
    ∷ opens_events end built
    ∷ opens_flow false (throws plain "down")
    ∷ opens_command 3 false built
    ∷ node_event 1 (resource_errors (failure plain "down"))
    ∷ []

abbrev deployment : Deployment
deployment = run "16" "17" postgres undeployed system

stays_open : All (λ e. closes e ≡ false) system
stays_open = (refl, (refl, (refl, (refl, (refl, tt)))))

All-built : All (λ e. builds postgres e ≡ true) system
unfolding succeeds worker_options_of parse_positive_integer positive_integer is_present find lookup
    to_number of_string is_integer is_below
All-built = (refl, (refl, (refl, (refl, (refl, tt)))))

-- The node whose worker waits to be ready.
abbrev first_node : Node
first_node = record {
  kind = run_node limited_options;
  resource = record { owner = 0; connection = none };
  starting = started;
}

first_at : deployment.node 0 ≡ some first_node
unfolding run step open_run_node open_events_node create_worker create_resource worker_options_of
    parse_positive_integer positive_integer is_present find lookup to_number of_string is_integer
    is_below open_flow_node create_flow_producer create_queue_events
first_at = refl

run-once_example :
    Reports.count "generic" (run "16" "17" postgres undeployed system).server.backend.reported ≤ 1
run-once_example = run-once "16" "17" postgres system "generic" stays_open

first_tells :
    (step_kind postgres first_node.kind first_node.starting
      (resource_errors (failure plain "down"))).told_owner
    ≡ failure plain "down" ∷ first_node.starting.told_owner
unfolding step_kind step_postgres on_error
first_tells = refl

step-once_example :
    Reports.count
      (describe_backend_failure "16" "17" plain "down").category
      (step "16" "17" postgres
        (run "16" "17" postgres undeployed system)
        (node_event 0 (resource_errors (failure plain "down")))).server.backend.reported
    ≡ 1
step-once_example =
    step-once "16" "17" postgres system 0 first_node (resource_errors (failure plain "down")) plain
      "down" stays_open first_at first_tells

run-on_close_example :
    let s = (run "16" "17" postgres undeployed system).server in
    ((on_close s).resources ≡ [])
    × (count (owned 1) (on_close s).handed ≡ (if ltb 1 s.constructed then 1 else 0))
    × (count (connected_at 0) (on_close s).handed ≡ (if ltb 0 s.opened then 1 else 0))
    × (s.opened ≡ (if postgres.postgres then 0 else s.constructed))
run-on_close_example = run-on_close "16" "17" postgres system 1 0 All-built

third_reads : has 3 deployment.server.backend.readers ≡ true
unfolding run step open_run_node open_events_node create_worker create_resource worker_options_of
    parse_positive_integer positive_integer is_present find lookup to_number of_string is_integer
    is_below open_flow_node create_flow_producer create_queue_events open_command_node get_queue
    step_kind step_node on_error deliver has read_backend_status report_backend_failure
    publish_backend_status Backend.step elem describe_backend_failure includes
third_reads = refl

run-told_example :
    (run "16" "17" postgres undeployed system).server.backend.told 3
    ≡ some (run "16" "17" postgres undeployed system).server.backend.status
run-told_example = run-told "16" "17" postgres system 3 third_reads

second_uses : used_by (node_user 1) deployment ≡ some 1
unfolding run step open_run_node open_events_node create_worker create_resource worker_options_of
    parse_positive_integer positive_integer is_present find lookup to_number of_string is_integer
    is_below open_flow_node create_flow_producer create_queue_events open_command_node get_queue
    step_kind step_node on_error deliver has read_backend_status report_backend_failure
    publish_backend_status Backend.step elem describe_backend_failure includes
second_uses = refl

closes_node-others_example :
    let d = run "16" "17" postgres undeployed system in
    let after = step "16" "17" postgres d (closes_node 0) in
    (count (owned 1) after.server.resources ≡ count (owned 1) d.server.resources)
    × (count (owned 1) after.server.handed ≡ count (owned 1) d.server.handed)
closes_node-others_example =
    closes_node-others "16" "17" postgres system 0 (node_user 1) 1 refl second_uses

-- The same nodes with telemetry, and without bullmq-otel.
abbrev measured : Settings
measured = record { postgres = true; telemetry = true }

run-complaints_example :
    let t = (run "16" "17" measured undeployed system).server.telemetry in
    (t.complaints ≤ (if measured.telemetry then 1 else 0)) × (t.present && t.unavailable ≡ false)
run-complaints_example = run-complaints "16" "17" measured system
