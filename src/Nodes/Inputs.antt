-- ===== src/Nodes/Inputs.antt =====
-- bull-queue.js: what the command node and the flow node do with a message, what the events node subscribes to and
-- sends, and `nodeSend` and `nodeDone`. A handler returns the message that it sends, or throws.
pub mod Retention
use node_red_contrib_bull.Prelude.{
  String, Bool, true, false, not, ◌||◌, List, [], ◌∷◌, Option, none, some, str_eq, if◌then◌else◌,
}
use node_red_contrib_bull.Js.Text.{trim, split_list}
use node_red_contrib_bull.Js.Value.{
  Value, str, arr, obj, Items, nil, cons, Fields, end, field, Result, ok, err, throw, truthy,
  is_object, to_string,
}
use node_red_contrib_bull.Js.Objects.{find, assign}
use node_red_contrib_bull.Js.Program.{done, pure, ◌>>=◌}
use node_red_contrib_bull.Library.{Action, flow_producer, ask, map_array, map_items}
use node_red_contrib_bull.Serialization.{serialize_flow_job}
use node_red_contrib_bull.Commands.Dispatch.{dispatch_command}
use node_red_contrib_bull.Nodes.Flows.{with_bulk_flow_job_defaults}
use node_red_contrib_bull.Nodes.Queues.{with_flow_job_defaults}

-- `onInput` of `BullQueueCmdNode`, where the configuration node has a queue or has none.
unfoldable pub on_command : Bool → Fields → Action Fields
on_command false msg =
    done (throw "BullMQ queue is unavailable; see the queue configuration node's error")
on_command true msg = dispatch_command msg >>= λ result. pure (assign "payload" result msg)

-- `withBulkFlowJobDefaults(flow, retention)` of each flow of an array.
abbrev pub stamp_all : Value → Items → Items
stamp_all retention flows = map_items (λ flow. with_bulk_flow_job_defaults flow retention) flows

-- `none` means that the loop of `withFlowJobDefaults` ran out of fuel.
abbrev pub add_flow : Value → Option Value → Action Value
add_flow payload none = done (throw "out of fuel")
add_flow payload (some options) = ask flow_producer "add" (payload ∷ options ∷ [])

-- What the handler of the flow node sends as the payload, for a payload that is an object.
unfoldable pub create_flows : Value → Value → Value → Action Value
create_flows retention (arr nil) flowopts =
    done (throw "bullmq flow requires at least one flow tree")
create_flows retention (arr (cons v vs)) flowopts =
    ask flow_producer "addBulk" (arr (stamp_all retention (cons v vs)) ∷ []) >>= λ trees.
    done (map_array serialize_flow_job trees)
create_flows retention payload flowopts =
    add_flow payload (with_flow_job_defaults payload flowopts retention) >>= λ node.
    pure (serialize_flow_job node)

-- `onInput` of `BullFlowNode`; the default job options are those of the configuration.
unfoldable pub on_flow : Value → Fields → Action Fields
on_flow retention msg =
    let created = create_flows retention (find "payload" msg) (find "flowopts" msg) >>= λ payload.
    pure (assign "payload" payload msg) in
    if not (truthy (find "payload" msg)) || not (is_object (find "payload" msg))
    then done
        (throw "bullmq flow requires msg.payload to contain a flow tree, or an array of flow trees")
    else created

-- What a node tells Node-RED: the messages that it sends, the calls of `done`, and of `node.error`.
pub record Told : Type 0 where
  pub sent : List Fields
  pub finished : List (Option Value)
  pub errors : List Value

-- `nodeDone`, where the runtime gave `done` or did not.
abbrev pub node_done : Bool → Option Value → List Fields → Told
node_done true e sent = record { sent = sent; finished = e ∷ []; errors = [] }
node_done false none sent = record { sent = sent; finished = []; errors = [] }
node_done false (some e) sent = record { sent = sent; finished = []; errors = e ∷ [] }

-- The end of a handler, after `try`, or in its `catch`; sending is taken not to throw.
unfoldable pub finish : Bool → Result Fields → Told
finish has_done (ok msg) = node_done has_done none (msg ∷ [])
finish has_done (err e) = node_done has_done (some e) []

-- `DEFAULT_EVENTS`
abbrev pub default_events : List String
default_events =
    "active" ∷ "added" ∷ "cleaned" ∷ "completed" ∷ "deduplicated" ∷ "delayed" ∷ "drained"
    ∷ "duplicated" ∷ "failed" ∷ "paused" ∷ "progress" ∷ "removed" ∷ "resumed" ∷ "retries-exhausted"
    ∷ "stalled" ∷ "waiting" ∷ "waiting-children" ∷ []

-- `.map((event) => event.trim()).filter(Boolean)`
unfoldable pub named : List String → List String
named [] = []
named (s ∷ rest) = let kept = named rest in if str_eq (trim s) "" then kept else trim s ∷ kept

unfoldable pub parse_event_filter : Value → List String
parse_event_filter value =
    let events = named (split_list (to_string value)) in
    if truthy value then events else default_events

-- The message that the events node sends for an event.
unfoldable pub event_message : String → String → Value → Value → Fields
event_message queue_name event payload event_id = field "topic" (str event) (
    field "payload" payload (
      field "bull"
        (obj (
          field "queue" (str queue_name)
            (field "event" (str event) (field "eventId" event_id end))))
        end))

-- The listeners that `BullEventsNode` attaches, one for each name, when an event comes in.
unfoldable pub on_queue_event : String → List String → String → Value → Value → List Fields
on_queue_event queue_name [] event payload event_id = []
on_queue_event queue_name (name ∷ names) event payload event_id =
    let rest = on_queue_event queue_name names event payload event_id in
    if str_eq name event then event_message queue_name name payload event_id ∷ rest else rest
