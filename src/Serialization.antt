-- ===== src/Serialization.antt =====
-- lib/serialization.js: the public view of a job and of a flow tree.
pub mod Laws
use node_red_contrib_bull.Prelude.{String, Bool, List, [], ◌∷◌, str_eq, if◌then◌else◌}
use node_red_contrib_bull.Js.Value.{
  Value, undefined, null, bool, num, str, arr, obj, failure, Items, nil, cons, Fields, end, field,
  truthy, is_undefined,
}
use node_red_contrib_bull.Js.Objects.{get, find, assign}

-- The body of the loop of `copyKnownFields`.
abbrev pub copy_field : Value → String → Fields → Fields
copy_field source name result =
    if is_undefined (get name source) then result else assign name (get name source) result

copy_from : Value → List String → Fields → Fields
copy_from source [] result = result
copy_from source (name ∷ names) result = copy_from source names (copy_field source name result)

unfoldable pub copy_known_fields : Value → List String → Value
unfolding copy_from is_undefined get assign truthy
copy_known_fields source names = if truthy source then obj (copy_from source names end) else source

abbrev pub job_fields : List String
job_fields =
    "id" ∷ "name" ∷ "queueName" ∷ "data" ∷ "opts" ∷ "progress" ∷ "attemptsMade" ∷ "attemptsStarted"
    ∷ "failedReason" ∷ "stacktrace" ∷ "returnvalue" ∷ "timestamp" ∷ "processedOn" ∷ "finishedOn"
    ∷ "delay" ∷ "priority" ∷ "parentKey" ∷ "deduplicationId" ∷ []

unfoldable pub serialize_job : Value → Value
serialize_job job = if truthy job then copy_known_fields job job_fields else job

-- `{ job: serializeJob(flowJob.job), children: … }`
abbrev pub flow_node : Value → Value → Value
flow_node job children = obj (field "job" job (field "children" children end))

-- `serializeFlowJob`, by recursion on the value: `serialize_children` looks for the property
-- `children` and `serialize_array` maps over it, if it is an array.
unfoldable mutual
  unfolding truthy get

  pub serialize_flow_job : Value → Value
  serialize_flow_job (obj fs) =
      flow_node (serialize_job (get "job" (obj fs))) (serialize_children fs)
  serialize_flow_job undefined = undefined
  serialize_flow_job null = null
  serialize_flow_job v = if truthy v then flow_node undefined undefined else v

  pub serialize_children : Fields → Value
  serialize_children end = undefined
  serialize_children (field k v fs) =
      if str_eq k "children" then serialize_array v else serialize_children fs

  pub serialize_array : Value → Value
  serialize_array (arr vs) = arr (serialize_items vs)
  serialize_array _ = undefined

  pub serialize_items : Items → Items
  serialize_items nil = nil
  serialize_items (cons v vs) = cons (serialize_flow_job v) (serialize_items vs)
