-- ===== src/Nodes/Flows.antt =====
-- bull-queue.js: the default options of the jobs of a flow, `withBulkFlowJobDefaults`.
pub mod Laws
use node_red_contrib_bull.Prelude.{String, Bool, true, false, List, [], ◌∷◌, str_eq, if◌then◌else◌}
use node_red_contrib_bull.Js.Value.{
  Value, undefined, null, bool, num, str, arr, obj, failure, Items, nil, cons, Fields, end, field,
  truthy, is_undefined,
}
use node_red_contrib_bull.Js.Objects.{get, find, own_fields, spread, assign}

-- `{ ...defaultJobOptions, ...flow.opts }`
abbrev pub merged_opts : Value → Value → Value
merged_opts default_job_options opts =
    obj (spread (own_fields default_job_options) (own_fields opts))

-- `...(children === undefined ? {} : { children })`
abbrev pub assign_children : Value → Fields → Fields
assign_children children fields =
    if is_undefined children then fields else assign "children" children fields

-- The object that is returned for a flow with some children.
unfoldable pub stamped : Value → Value → Value → Value
stamped default_job_options flow children = obj (
    assign_children children
      (assign "opts" (merged_opts default_job_options (get "opts" flow)) (own_fields flow)))

-- `withBulkFlowJobDefaults` where there are default options, by recursion on the value:
-- `stamp_children` looks for the property `children`, and `stamp_array` maps over it, if it is an array.
unfoldable mutual
  unfolding stamped

  pub stamp : Value → Value → Value
  stamp d (obj fs) = stamped d (obj fs) (stamp_children d fs)
  stamp d (arr vs) = stamped d (arr vs) undefined
  stamp d (failure kind m) = stamped d (failure kind m) undefined
  stamp d flow = flow

  pub stamp_children : Value → Fields → Value
  stamp_children d end = undefined
  stamp_children d (field k v fs) =
      let rest = stamp_children d fs in if str_eq k "children" then stamp_array d v else rest

  pub stamp_array : Value → Value → Value
  stamp_array d (arr vs) = arr (stamp_items d vs)
  stamp_array d v = v

  pub stamp_items : Value → Items → Items
  stamp_items d nil = nil
  stamp_items d (cons v vs) = cons (stamp d v) (stamp_items d vs)

unfoldable pub with_bulk_flow_job_defaults : Value → Value → Value
with_bulk_flow_job_defaults flow default_job_options =
    if truthy default_job_options then stamp default_job_options flow else flow
