-- ===== src/Nodes/Queues.antt =====
-- bull-queue.js: the default options of the queues of a flow, `withFlowJobDefaults`. The array `pending`
-- is a list whose head is the array's last element, so that `pop` takes the head.
pub mod Loop
pub mod Visits
pub mod Merge
use node_red_contrib_bull.Prelude.{
  ℕ, zero, suc, ◌+◌, String, Bool, true, false, not, List, [], ◌∷◌, ◌++◌, Option, none, some,
  str_eq, if◌then◌else◌,
}
use node_red_contrib_bull.Js.Value.{
  Value, undefined, str, arr, obj, failure, Items, nil, cons, Fields, end, field, truthy, is_object,
  or_value,
}
use node_red_contrib_bull.Js.Objects.{get, find, own_fields, spread, assign}
use node_red_contrib_bull.Commands.Jobs.{empty}

-- `{ ...queueOptions, defaultJobOptions: { ...defaultJobOptions, ...queueOptions.defaultJobOptions } }`
unfoldable pub with_defaults : Value → Value → Value
with_defaults default_job_options queue_options = obj (
    assign "defaultJobOptions"
      (obj (
        spread (own_fields default_job_options)
          (own_fields (get "defaultJobOptions" queue_options))))
      (own_fields queue_options))

-- `queuesOptions[name] || {}`
abbrev pub queue_options_of : String → Fields → Value
queue_options_of name queues_options = or_value (find name queues_options) empty

abbrev pub stamp_queue : Value → String → Fields → Fields
stamp_queue default_job_options name queues_options =
    assign name (with_defaults default_job_options (queue_options_of name queues_options))
      queues_options

-- `if (typeof job.queueName === "string" && job.queueName)`
abbrev pub stamp_named : Value → Value → Fields → Fields
stamp_named default_job_options (str name) queues_options =
    if str_eq name "" then queues_options else stamp_queue default_job_options name queues_options
stamp_named default_job_options _ queues_options = queues_options

unfoldable pub visit : Value → Value → Fields → Fields
visit default_job_options job queues_options =
    stamp_named default_job_options (get "queueName" job) queues_options

-- `pending.push(...children)`: the last child is on top.
unfoldable pub push_all : Items → List Value → List Value
push_all nil pending = pending
push_all (cons v vs) pending = push_all vs (v ∷ pending)

abbrev pub push_children : Value → List Value → List Value
push_children (arr vs) pending = push_all vs pending
push_children _ pending = pending

-- The `while` loop; `none` means that the fuel ran out.
unfoldable pub loop : ℕ → Value → List Value → Fields → Option Fields
loop fuel d [] queues_options = some queues_options
loop zero d (job ∷ pending) queues_options = none
loop (suc fuel) d (job ∷ pending) queues_options =
    let skipped = loop fuel d pending queues_options in
    let visited =
      loop fuel d (push_children (get "children" job) pending) (visit d job queues_options) in
    if is_object job then visited else skipped

-- The number of values in a value: a bound on the rounds of the loop.
unfoldable mutual
  pub size : Value → ℕ
  size (arr vs) = suc (size_items vs)
  size (obj fs) = suc (size_fields fs)
  size _ = 1

  pub size_items : Items → ℕ
  size_items nil = 0
  size_items (cons v vs) = size v + size_items vs

  pub size_fields : Fields → ℕ
  size_fields end = 0
  size_fields (field k v fs) = size v + size_fields fs

-- `flowOptions && typeof flowOptions === "object" ? flowOptions : {}`
abbrev pub options_of : Value → Value
options_of flow_options = if is_object flow_options then flow_options else empty

abbrev pub with_queues_options : Value → Option Fields → Option Value
with_queues_options options none = none
with_queues_options options (some queues_options) =
    some (obj (assign "queuesOptions" (obj queues_options) (own_fields options)))

unfoldable pub with_flow_job_defaults : Value → Value → Value → Option Value
with_flow_job_defaults flow flow_options default_job_options =
    let options = options_of flow_options in
    if not (truthy default_job_options)
    then some flow_options
    else with_queues_options options (
        loop (size flow) default_job_options (flow ∷ []) (own_fields (get "queuesOptions" options)))
