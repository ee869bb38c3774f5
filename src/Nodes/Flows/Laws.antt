-- ===== src/Nodes/Flows/Laws.antt =====
-- What `withBulkFlowJobDefaults` of bull-queue.js changes in a flow.
use node_red_contrib_bull.Prelude.{
  String, ◌≡◌, refl, true, arith, str_eq, str_eq_iff, if◌then◌else◌, Bool-cases, inl, inr,
}
use node_red_contrib_bull.Js.Value.{Value, undefined, obj, Fields, end, field, truthy, is_undefined}
use node_red_contrib_bull.Js.Objects.{get, find, lookup, has_own, own_fields, assign}
use node_red_contrib_bull.Js.Objects.Laws.{IsObject, find-assign, lookup-spread}
use node_red_contrib_bull.Nodes.Flows.{
  merged_opts, assign_children, stamped, stamp, stamp_children, stamp_array,
  with_bulk_flow_job_defaults,
}

pub stamp_children-find :
    (d : Value) (fs : Fields) → stamp_children d fs ≡ stamp_array d (find "children" fs)
unfolding stamp_children stamp_array find lookup
stamp_children-find d end = refl
stamp_children-find d (field k v fs) = ground (arith, stamp_children-find d fs)

undefined_lem : (v : Value) → is_undefined v ≡ true → v ≡ undefined
unfolding is_undefined
undefined_lem v h = ground arith

-- The three kinds of names, over any children and options.
find-assign_children :
    (k : String) (children opts : Value) (fs : Fields)
    → (is_undefined children ≡ true → find "children" fs ≡ undefined)
    → find k (assign_children children (assign "opts" opts fs))
      ≡ (if str_eq "children" k then children else if str_eq "opts" k then opts else find k fs)
find-assign_children k children opts fs absent = elim (Bool-cases (is_undefined children)) [
  | inl h ↦ ground (
    arith,
    absent h,
    undefined_lem children h,
    find-assign "opts" k opts fs,
    str_eq_iff "children" k,
    str_eq_iff "opts" k,
    str_eq_iff "opts" "children",
  )
  | inr h ↦ ground (
    arith,
    find-assign "children" k children (assign "opts" opts fs),
    find-assign "opts" k opts fs,
  )
]

undefined_array : (d v : Value) → is_undefined (stamp_array d v) ≡ true → v ≡ undefined
unfolding stamp_array is_undefined
undefined_array d v h = ground arith

-- With default options, a flow that is an object keeps every property but two: its children that are an
-- array are treated one by one in the same way, others are kept, and its options are the default ones
-- and its own merged.
pub get-with_bulk_flow_job_defaults :
    (k : String) (fs : Fields) (default_job_options : Value)
    → truthy default_job_options ≡ true
    → get k (with_bulk_flow_job_defaults (obj fs) default_job_options) ≡ (
        if str_eq "children" k
        then stamp_array default_job_options (find "children" fs)
        else if str_eq "opts" k
        then merged_opts default_job_options (find "opts" fs)
        else find k fs)
unfolding with_bulk_flow_job_defaults stamp stamped get own_fields
get-with_bulk_flow_job_defaults k fs d given =
    rw (given, stamp_children-find d fs)
      (find-assign_children k (stamp_array d (find "children" fs)) (merged_opts d (find "opts" fs))
        fs (undefined_array d (find "children" fs)))

-- In a flow whose options are an object, an option that the caller set wins over the default option
-- of the same name, also where it was set to undefined; an option that the caller did not set is the
-- default one.
pub get_opts-with_bulk_flow_job_defaults :
    (k : String) (fs opts defaults : Fields)
    → find "opts" fs ≡ obj opts
    → IsObject opts
    → get k (get "opts" (with_bulk_flow_job_defaults (obj fs) (obj defaults)))
      ≡ (if has_own k (obj opts) then find k opts else find k defaults)
unfolding truthy own_fields get find has_own
get_opts-with_bulk_flow_job_defaults k fs opts defaults set unique =
    rw (get-with_bulk_flow_job_defaults "opts" fs (obj defaults) refl, set)
      (ground (arith, lookup-spread k defaults opts unique))
