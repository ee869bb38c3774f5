-- ===== src/Nodes/Deployment.antt =====
-- bull-queue.js: a deployment of one configuration node with the run, events, flow and command nodes that use it.
-- A failure that a node gives to `reportBackendFailure` reaches the configuration node at once. Runtime nodes have
-- numbers in the order in which they are made; a command node has none, since it keeps only its reader.
pub mod Backends
pub mod Servers
pub mod Readers
pub mod Telemetry
pub mod Separation
pub mod Isolation
pub mod Runtime
pub mod Workers
pub mod Failing
pub mod Outages
use node_red_contrib_bull.Prelude.{
  ℕ, suc, String, Bool, true, false, List, [], ◌∷◌, Option, none, some, ◌==◌, if◌then◌else◌,
}
use node_red_contrib_bull.Js.Value.{
  Value, Fields, ErrorClass, plain, failure, to_string, or_value, Result, ok, err,
}
use node_red_contrib_bull.Js.Objects.{get}
use node_red_contrib_bull.Nodes.Fields.{WorkerOptions}
use node_red_contrib_bull.Nodes.Backend.{Backend, report_backend_failure}
use node_red_contrib_bull.Nodes.Backend
use node_red_contrib_bull.Nodes.Resources.{
  Tracked, Server, Settings, Construction, fresh, release_resource, on_close,
}
use node_red_contrib_bull.Nodes.Startup.{Starting}
use node_red_contrib_bull.Nodes.Startup
use node_red_contrib_bull.Nodes.Lifecycle.{
  Kind, Opened, no_queue, no_resource, opened, open_run_node, open_events_node, open_flow_node,
  open_command_node, close_command_node, step_kind,
}

-- A node that has its resource; what it told its owner has been delivered.
pub record Node : Type 0 where
  pub kind : Kind
  pub resource : Tracked
  pub starting : Starting

pub record Deployment : Type 0 where
  pub server : Server
  pub made : ℕ
  pub node : ℕ → Option Node

abbrev pub undeployed : Deployment
undeployed = record { server = fresh; made = 0; node = λ _. none }

-- What Node-RED, the libraries and the backend do; `node_event` happens to a node, its resource or what it
-- awaits, and `backend_event` to the backend of the queue, or it is what a reader does.
pub data Event : Type 0 where
  opens_run : Fields → Bool → (WorkerOptions → Construction) → Event
  opens_events : Fields → Construction → Event
  opens_flow : Bool → Construction → Event
  opens_command : ℕ → Bool → Construction → Event
  node_event : ℕ → Startup.Event → Event
  backend_event : Backend.Event → Event
  closes_node closes_command : ℕ → Event
  closes_server : Event

-- The class and the message of an error that a library gives. Any other value is of no class of BullMQ, and its
-- message is its property `message`, if that is truthy, or else its text.
abbrev pub error_of : Value → ErrorClass × String
error_of (failure kind m) = (kind, m)
error_of v = (plain, to_string (or_value (get "message" v) v))

-- A constructor that throws, or finds no resource, leaves no node with a resource.
abbrev pub add_opened : Deployment → Result Opened × Server → Deployment
add_opened d (ok (opened kind t starting), s) = record {
  server = s;
  made = suc d.made;
  node = λ j.
      if d.made == j
      then some (record { kind = kind; resource = t; starting = starting })
      else d.node j;
}
add_opened d (_, s) = record d { server = s }

abbrev pub with_backend : (Backend → Backend) → Server → Server
with_backend f s = record s { backend = f s.backend }

module _ (minimum_version recommended_version : String) (settings : Settings) where
  -- `reportBackendFailure` of the configuration node, for what a node told its owner.
  unfoldable pub deliver : List Value → Backend → Backend
  deliver [] b = b
  deliver (v ∷ vs) b =
      let (kind, m) = error_of v in
      report_backend_failure minimum_version recommended_version kind m (deliver vs b)

  abbrev pub change_node : ℕ → Node → Starting → Deployment → Deployment
  change_node i n after d = record {
    server = with_backend (deliver after.told_owner) d.server;
    made = d.made;
    node = λ j.
        if i == j
        then some (record n { starting = record after { told_owner = [] } })
        else d.node j;
  }

  abbrev pub step_at : ℕ → Startup.Event → Option Node → Deployment → Deployment
  step_at i e none d = d
  step_at i e (some n) d = change_node i n (step_kind settings n.kind n.starting e) d

  abbrev pub release_at : Option Node → Deployment → Deployment
  release_at none d = d
  release_at (some n) d = record d { server = release_resource n.resource.owner d.server }

  unfoldable pub step : Deployment → Event → Deployment
  step d (opens_run n installed construct) = add_opened d (
      open_run_node minimum_version recommended_version settings true n installed construct
        d.server)
  step d (opens_events n c) =
      add_opened d (open_events_node minimum_version recommended_version settings true n c d.server)
  step d (opens_flow installed c) =
      add_opened d
        (open_flow_node minimum_version recommended_version settings true installed c d.server)
  step d (opens_command reader installed c) =
      let (outcome, s) =
        open_command_node minimum_version recommended_version settings reader installed c
          d.server in
      record d { server = s }
  step d (node_event i e) = step_at i e (d.node i) d
  step d (backend_event e) = record d {
    server = with_backend (λ b. Backend.step minimum_version recommended_version b e) d.server;
  }
  step d (closes_node i) = release_at (d.node i) d
  step d (closes_command reader) = record d {
    server = with_backend (close_command_node reader) d.server;
  }
  step d closes_server = record d { server = on_close d.server }

  unfoldable pub run : Deployment → List Event → Deployment
  run d [] = d
  run d (e ∷ es) = run (step d e) es
