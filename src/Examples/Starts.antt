-- ===== src/Examples/Starts.antt =====
-- A configuration node on Redis with two nodes, a worker on PostgreSQL that starts, and a message for a flow node.
use node_red_contrib_bull.Prelude.{
  ◌≡◌, refl, true, false, List, [], ◌∷◌, ◌++◌, All, ltb, none, some, if◌then◌else◌,
}
use node_red_contrib_bull.Js.Value.{
  Value, new_error, str, arr, nil, cons, obj, bool, Fields, end, field, or_value, is_object,
}
use node_red_contrib_bull.Js.Objects.{find, get, lookup, own_fields, is_some}
use node_red_contrib_bull.Js.Objects.Laws.{IsObject}
use node_red_contrib_bull.Js.Program.{Calls}
use node_red_contrib_bull.Js.Number.{nat}
use node_red_contrib_bull.Acknowledgements.{
  Context, Entry, Registry, empty, create, new_id, new_entry, lookup as lookup_id,
  is_some as is_settled,
}
use node_red_contrib_bull.Acknowledgements.Invariant.{empty-IsValid, create-IsValid}
use node_red_contrib_bull.Nodes.Lifecycle.{close_run_node}
use node_red_contrib_bull.Nodes.Lifecycle.Closed.{close_run_node-count}
use node_red_contrib_bull.Nodes.Resources.{
  Settings, built, Request, gets_queue, creates_worker, creates_queue_events, releases, fresh,
  serve_all,
}
use node_red_contrib_bull.Nodes.Resources.Counts.{count, owned}
use node_red_contrib_bull.Nodes.Resources.Handed.{succeeds}
use node_red_contrib_bull.Nodes.Startup.{
  Event, resource_errors, ready_fulfilled, run_rejected, started, run_postgres,
}
use node_red_contrib_bull.Nodes.Startup.Worker.{becomes_ready, run_postgres-runs}
use node_red_contrib_bull.Nodes.Startup.Owner.{run_postgres-told_owner}
use node_red_contrib_bull.Nodes.Queues.Visits.{cell}
use node_red_contrib_bull.Nodes.Queues.Merge.{queues_of}
use node_red_contrib_bull.Nodes.Inputs.{on_flow}
use node_red_contrib_bull.Nodes.Inputs.Retention.{Retained, on_flow-Calls}

abbrev redis : Settings
redis = record { postgres = false; telemetry = true }

abbrev requests : List Request
requests =
    gets_queue true built
    ∷ creates_worker true built
    ∷ creates_queue_events built
    ∷ releases 1
    ∷ gets_queue true built
    ∷ []

requests_succeed : All (λ q. succeeds redis q ≡ true) requests
unfolding succeeds
requests_succeed = (refl, (refl, (refl, (refl, (refl, tt)))))

abbrev waiting_job : Context
waiting_job = record {
  job = obj (field "id" (str "1") end);
  queue_name = "mail";
  run_node_id = "run1";
  token = str "t1";
  signal = none;
}

-- The registry with one job of the run node.
abbrev one_job : Registry
one_job = create waiting_job (nat 0) 7 "x" empty

unused : lookup_id (new_id waiting_job 7 "x") empty.entries ≡ none
unfolding lookup_id
unused = refl

job_at : one_job.cell 0 ≡ some (new_entry waiting_job (nat 0) (new_id waiting_job 7 "x"))
unfolding create
job_at = refl

job_node : (new_entry waiting_job (nat 0) (new_id waiting_job 7 "x")).run_node_id ≡ "run1"
unfolding new_entry
job_node = refl

close_run_node-count_example :
    (e' : Entry) × ((close_run_node "run1" 1 one_job
          (serve_all "16" "17" redis fresh requests)).0.cell
        0
      ≡ some e')
    × (is_settled e'.settlement ≡ true)
    × (count
          (owned 1)
          (close_run_node "run1" 1 one_job (serve_all "16" "17" redis fresh requests)).1.resources
        ≡ 0)
    × (count
          (owned 1)
          (close_run_node "run1" 1 one_job (serve_all "16" "17" redis fresh requests)).1.handed
        ≡ (if ltb 1 (serve_all "16" "17" redis fresh requests).constructed then 1 else 0))
close_run_node-count_example =
    close_run_node-count "16" "17" redis requests "run1" 1 0
      (new_entry waiting_job (nat 0) (new_id waiting_job 7 "x")) one_job requests_succeed
      (create-IsValid waiting_job (nat 0) 7 "x" empty empty-IsValid unused) job_at job_node

abbrev history : List Event
history =
    resource_errors (new_error "refused") ∷ ready_fulfilled ∷ run_rejected (new_error "gone") ∷ []

run_postgres-runs_example :
    (run_postgres started history).runs ≡ (if becomes_ready history then 1 else 0)
run_postgres-runs_example = run_postgres-runs history

abbrev defaults : Fields
defaults = field "removeOnFail" (bool true) end

abbrev flow : Value
flow = obj (field "name" (str "parent") (field "queueName" (str "mail") end))

abbrev message : Fields
message = field "payload" (arr (cons flow nil)) end

defaults-IsObject : IsObject defaults
unfolding lookup
defaults-IsObject = (refl, tt)

default_given : is_some (lookup "removeOnFail" defaults) ≡ true
unfolding lookup
default_given = refl

no_options-IsObject : IsObject (cell "mail" (queues_of (find "flowopts" message)))
unfolding cell get own_fields is_object lookup or_value find
no_options-IsObject = tt

on_flow-Calls_example :
    Calls (Retained "removeOnFail" "mail" (find "payload" message)) (on_flow (obj defaults) message)
on_flow-Calls_example =
    on_flow-Calls "removeOnFail" "mail" defaults default_given defaults-IsObject message
      no_options-IsObject

abbrev readiness : List Event
readiness = resource_errors (new_error "refused") ∷ ready_fulfilled ∷ []

readiness_reached : becomes_ready readiness ≡ true
unfolding becomes_ready
readiness_reached = refl

run_postgres-told_owner_example :
    (run_postgres started (readiness ++ (run_rejected (new_error "gone") ∷ []))).told_owner
    ≡ (run_postgres started readiness).told_owner
run_postgres-told_owner_example =
    run_postgres-told_owner readiness (run_rejected (new_error "gone") ∷ []) readiness_reached
