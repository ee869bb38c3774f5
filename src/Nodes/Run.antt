-- ===== src/Nodes/Run.antt =====
-- bull-queue.js: the processor of `BullQueueRunNode`. The worker that it hands to the acknowledgement and
-- the queue that it gets for it are objects of BullMQ, which the registry only stores.
pub mod RoundTrip
use node_red_contrib_bull.Prelude.{
  ℕ, String, Bool, true, false, Option, none, some, str_eq, if◌then◌else◌,
}
use node_red_contrib_bull.Js.Number.{nat}
use node_red_contrib_bull.Js.Value.{Value, str, Fields, end, field, or_value}
use node_red_contrib_bull.Js.Objects.{find, get}
use node_red_contrib_bull.Acknowledgements.{
  Context, Registry, new_id, create, wait, parse_ack_timeout_ms,
}
use node_red_contrib_bull.Nodes.Messages.{create_job_message}

-- The fields of a run node, and the name of its queue.
pub record RunNode : Type 0 where
  pub id : String
  pub completion_mode : Value
  pub ack_timeout : Value
  pub queue_name : String

-- What one call of the processor has done when it sends its message: what it returns, `none` where it waits
-- for the acknowledgement, and the registry.
pub record Started : Type 0 where
  pub message : Fields
  pub returned : Option Value
  pub registry : Registry

abbrev pub context_of : RunNode → Value → Value → Option ℕ → Context
context_of node job token signal = record {
  job = job;
  queue_name = node.queue_name;
  run_node_id = node.id;
  token = token;
  signal = signal;
}

abbrev pub is_manual : Value → Bool
is_manual (str mode) = str_eq mode "manual"
is_manual _ = false

-- The branch of manual mode, at a time and with the digits that `Math.random` gave.
unfoldable pub start_manual : RunNode → Value → Value → Option ℕ → ℕ → String → Registry → Started
start_manual node job token signal now random r =
    let c = context_of node job token signal in
    let extra = field "ackId" (str (new_id c now random)) (field "runNodeId" (str node.id) end) in
    record {
      message = create_job_message job node.queue_name extra;
      returned = none;
      registry =
          wait r.next (create c (parse_ack_timeout_ms node.ack_timeout (nat 300000)) now random r);
    }

unfoldable pub start_immediate : RunNode → Value → Registry → Started
start_immediate node job r =
    let message = create_job_message job node.queue_name end in
    record { message = message; returned = some (find "payload" message); registry = r }

unfoldable pub process : RunNode → Value → Value → Option ℕ → ℕ → String → Registry → Started
process node job token signal now random r =
    if is_manual node.completion_mode
    then start_manual node job token signal now random r
    else start_immediate node job r
