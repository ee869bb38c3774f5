-- ===== src/Nodes/Lifecycle.antt =====
-- bull-queue.js: what the constructors of the run, events and flow nodes come to, what the nodes show, and the
-- close handlers of the runtime nodes up to their await.
pub mod Closed
use node_red_contrib_bull.Prelude.{
  ℕ, String, Bool, true, false, List, [], ◌∷◌, Option, none, some, if◌then◌else◌,
}
use node_red_contrib_bull.Js.Value.{Value, Fields, new_error, Result, ok, err}
use node_red_contrib_bull.Acknowledgements.{Registry, reject_by_run_node}
use node_red_contrib_bull.Nodes.Backend.{
  Status, connecting, connected, disconnected, Backend, stop_reading, read_backend_status,
}
use node_red_contrib_bull.Nodes.Resources.{
  Tracked, Server, Settings, Construction, get_queue, release_resource, create_worker,
  create_queue_events, create_flow_producer,
}
use node_red_contrib_bull.Nodes.Startup.{
  Starting, started, Event, step_postgres, step_redis, step_node,
}
use node_red_contrib_bull.Nodes.Fields.{WorkerOptions, worker_options_of}
use node_red_contrib_bull.Nodes.Inputs.{parse_event_filter}
use node_red_contrib_bull.Js.Objects.{find}

-- The argument of `node.status`.
pub record Appearance : Type 0 where
  pub fill : String
  pub shape : String
  pub text : String

-- `setConnecting`, `setConnected`, `setDisconnected`
unfoldable pub appearance_of : Status → Appearance
appearance_of connecting = record { fill = "yellow"; shape = "ring"; text = "connecting" }
appearance_of connected = record { fill = "green"; shape = "dot"; text = "connected" }
appearance_of disconnected = record { fill = "red"; shape = "ring"; text = "disconnected" }

-- What a run, events or flow node was made with: the options of its worker, or the events that it listens to.
pub data Kind : Type 0 where
  run_node : WorkerOptions → Kind
  events_node : List String → Kind
  flow_node : Kind

-- A node without its configuration node; one whose resource could not be made; and one that starts.
pub data Opened : Type 0 where
  no_queue no_resource : Opened
  opened : Kind → Tracked → Starting → Opened

-- The constructor, where the configuration node exists, given what creating the resource came to.
abbrev pub open_node : Kind → Result (Option Tracked) × Server → Result Opened × Server
open_node kind (err e, s) = (err e, s)
open_node kind (ok none, s) = (ok no_resource, s)
open_node kind (ok (some t), s) = (ok (opened kind t started), s)

module _ (minimum_version recommended_version : String) (settings : Settings) where
  abbrev pub open_worker :
      Bool → (WorkerOptions → Construction) → Result WorkerOptions → Server → Result Opened × Server
  open_worker installed construct (err e) s = (err e, s)
  open_worker installed construct (ok options) s =
      open_node (run_node options)
        (create_worker minimum_version recommended_version settings installed (construct options) s)

  -- The constructor of `BullQueueRunNode`, given whether the configuration node exists, the fields of the node, and
  -- what the constructor of Worker does with its options.
  unfoldable pub open_run_node :
      Bool → Fields → Bool → (WorkerOptions → Construction) → Server → Result Opened × Server
  open_run_node false n installed construct s = (ok no_queue, s)
  open_run_node true n installed construct s =
      open_worker installed construct (worker_options_of n settings.postgres) s

  -- The constructor of `BullEventsNode`.
  unfoldable pub open_events_node : Bool → Fields → Construction → Server → Result Opened × Server
  open_events_node false n c s = (ok no_queue, s)
  open_events_node true n c s =
      open_node (events_node (parse_event_filter (find "events" n)))
        (create_queue_events minimum_version recommended_version settings c s)

  -- The constructor of `BullFlowNode`.
  unfoldable pub open_flow_node : Bool → Bool → Construction → Server → Result Opened × Server
  open_flow_node false installed c s = (ok no_queue, s)
  open_flow_node true installed c s =
      open_node flow_node
        (create_flow_producer minimum_version recommended_version settings installed c s)

-- What an event does to a node that has its resource.
unfoldable pub step_kind : Settings → Kind → Starting → Event → Starting
step_kind settings (run_node options) s e =
    if settings.postgres then step_postgres s e else step_redis s e
step_kind settings (events_node names) s e = step_node settings.postgres s e
step_kind settings flow_node s e = step_node settings.postgres s e

unfoldable pub shown : Opened → Appearance
shown no_queue = record { fill = "red"; shape = "ring"; text = "missing queue" }
shown no_resource = appearance_of disconnected
shown (opened kind t s) = appearance_of s.status

unfoldable pub opening_errors : Opened → List String
opening_errors no_queue = "Missing bullmq-queue-server config node" ∷ []
opening_errors _ = []

abbrev pub closed_error : Value
closed_error = new_error "BullMQ run node closed before acknowledgement"

-- `onClose` of `BullQueueRunNode`
unfoldable pub close_run_node : String → ℕ → Registry → Server → Registry × Server
close_run_node node worker r s = (reject_by_run_node node closed_error r, release_resource worker s)

-- `onClose` of `BullEventsNode` and of `BullFlowNode`
abbrev pub close_node : ℕ → Server → Server
close_node resource s = release_resource resource s

-- `onClose` of `BullQueueCmdNode`
abbrev pub close_command_node : ℕ → Backend → Backend
close_command_node reader b = stop_reading reader b

-- `applyBackendStatus` of `BullQueueCmdNode`
abbrev pub apply_backend_status : Status → Appearance
apply_backend_status status = appearance_of status

abbrev pub read_after : ℕ → Result (Option ℕ) × Server → Result {0} Unit × Server
read_after reader (err e, s) = (err e, s)
read_after reader (ok q, s) = (ok tt, record s { backend = read_backend_status reader s.backend })

-- The constructor of `BullQueueCmdNode`, where the configuration node exists: it asks for the queue, and then
-- reads the status of the backend.
unfoldable pub open_command_node :
    String → String → Settings → ℕ → Bool → Construction → Server → Result {0} Unit × Server
open_command_node minimum_version recommended_version settings reader installed c s =
    read_after reader (get_queue minimum_version recommended_version settings installed c s)
