-- ===== src/Nodes/Startup.antt =====
-- bull-queue.js: how a node that has its resource starts: `attachErrorListener`, the start of the worker of
-- `BullQueueRunNode`, and `updateReadyStatus` of the events and flow nodes. What happens to the resource and to
-- the promises that the node awaits is a list of events.
pub mod Worker
pub mod Owner
use node_red_contrib_bull.Prelude.{
  ℕ, suc, Bool, true, false, not, ◌&&◌, List, [], ◌∷◌, Option, none, some, if◌then◌else◌,
}
use node_red_contrib_bull.Js.Value.{Value}
use node_red_contrib_bull.Nodes.Backend.{Status, connecting, connected, disconnected}

-- What `startPostgresWorker` awaits.
pub data Phase : Type 0 where
  awaits_ready awaits_run ended : Phase

-- The status that the node shows; `ready` of its error listener and `workerReady`; what is awaited, how often
-- `worker.run` was called, and whether the worker closes; what was given to `reportBackendFailure` of the
-- configuration node and to `node.error`, the latest first.
pub record Starting : Type 0 where
  pub status : Status
  pub ready : Bool
  pub worker_ready : Bool
  pub phase : Phase
  pub runs : ℕ
  pub closing : Bool
  pub told_owner : List Value
  pub errors : List Value

-- After the constructor's `setConnecting`.
abbrev pub started : Starting
started = record {
  status = connecting;
  ready = false;
  worker_ready = false;
  phase = awaits_ready;
  runs = 0;
  closing = false;
  told_owner = [];
  errors = [];
}

-- `resource_errors`, `resource_ready` and `resource_closed` are events of the resource; the other names say what
-- comes of the promises `waitUntilReady()` and `run()`; `close_begins` sets `worker.closing`.
pub data Event : Type 0 where
  resource_errors ready_rejected run_rejected : Value → Event
  resource_ready resource_closed ready_fulfilled run_fulfilled close_begins : Event

abbrev pub show : Status → Starting → Starting
show status s = record s { status = status }

abbrev pub tell_owner : Value → Starting → Starting
tell_owner e s = record s { told_owner = e ∷ s.told_owner }

abbrev pub tell_node : Value → Starting → Starting
tell_node e s = record s { errors = e ∷ s.errors }

-- The listener of `attachErrorListener`; `has_owner` says that there is a `startupFailureOwner`.
unfoldable pub on_error : Bool → Value → Starting → Starting
on_error has_owner e s =
    if has_owner && not s.ready
    then tell_owner e (show disconnected s)
    else tell_node e (show disconnected s)

-- `startPostgresWorker` after `waitUntilReady`, up to the await of `run`.
unfoldable pub after_ready : Starting → Starting
after_ready s = if s.closing then record s { phase = ended } else record s {
  worker_ready = true;
  ready = true;
  status = connected;
  runs = suc s.runs;
  phase = awaits_run;
}

-- The `catch` of `startPostgresWorker`.
unfoldable pub after_failure : Value → Starting → Starting
after_failure e s =
    if s.closing
    then record s { phase = ended }
    else if s.worker_ready
    then tell_node e (record s { phase = ended; status = disconnected })
    else tell_owner e (record s { phase = ended; status = disconnected })

-- What a promise does to `startPostgresWorker`, by what it awaits.
abbrev pub resume : Phase → Event → Starting → Starting
resume awaits_ready ready_fulfilled s = after_ready s
resume awaits_ready (ready_rejected e) s = after_failure e s
resume awaits_run run_fulfilled s = record s { phase = ended }
resume awaits_run (run_rejected e) s = after_failure e s
resume phase e s = s

-- The run node on PostgreSQL.
unfoldable pub step_postgres : Starting → Event → Starting
step_postgres s (resource_errors e) = on_error true e s
step_postgres s resource_ready = s
step_postgres s resource_closed = show disconnected s
step_postgres s close_begins = record s { closing = true }
step_postgres s e = resume s.phase e s

-- The run node on Redis, where `run` starts with the worker.
unfoldable pub step_redis : Starting → Event → Starting
step_redis s (resource_errors e) = on_error false e s
step_redis s resource_ready = record s { ready = true; status = connected }
step_redis s resource_closed = show disconnected s
step_redis s close_begins = record s { closing = true }
step_redis s e = s

-- The events node and the flow node; `has_owner` says that the backend is PostgreSQL.
unfoldable pub step_node : Bool → Starting → Event → Starting
step_node has_owner s (resource_errors e) = on_error has_owner e s
step_node has_owner s ready_fulfilled = record s { ready = true; status = connected }
step_node has_owner s (ready_rejected e) =
    if has_owner then tell_owner e (show disconnected s) else tell_node e (show disconnected s)
step_node has_owner s e = s

unfoldable pub run_postgres : Starting → List Event → Starting
run_postgres s [] = s
run_postgres s (e ∷ es) = run_postgres (step_postgres s e) es
