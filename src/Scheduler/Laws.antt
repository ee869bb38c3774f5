-- ===== src/Scheduler/Laws.antt =====
-- What lib/scheduler.js accepts as an id and lets out of a scheduler.
use node_red_contrib_bull.Prelude.{
  String, ◌≡◌, refl, ◌&&◌, List, [], ◌∷◌, arith, str_eq_iff, if◌then◌else◌,
}
use node_red_contrib_bull.Js.Text.{elem}
use node_red_contrib_bull.Js.Value.{undefined, obj, Fields, end, truthy}
use node_red_contrib_bull.Js.Objects.{get, find, lookup, has_own, assign, lookup-assign}
use node_red_contrib_bull.Scheduler.{
  copy_own, scheduler_fields, copy_own_fields, serialize_scheduler,
}

lookup-copy_own :
    (k : String) (fs : Fields) (names : List String) (result : Fields)
    → lookup k (copy_own (obj fs) names result)
      ≡ (if elem k names && has_own k (obj fs) then lookup k fs else lookup k result)
unfolding copy_own elem has_own get
lookup-copy_own k fs [] result = refl
lookup-copy_own k fs (name ∷ names) result = ground (
  arith,
  lookup-copy_own k fs names result,
  lookup-copy_own k fs names (assign name (get name (obj fs)) result),
  lookup-assign name k (get name (obj fs)) result,
  str_eq_iff k name,
  str_eq_iff name k,
)

-- For any list of names, which stays a variable here.
reads :
    (k : String) (fs : Fields) (names : List String)
    → (has_own k (copy_own_fields (obj fs) names) ≡ elem k names && has_own k (obj fs))
      × (get k (copy_own_fields (obj fs) names)
          ≡ (if elem k names then get k (obj fs) else undefined))
unfolding copy_own_fields has_own get find
reads k fs names = ground (arith, lookup-copy_own k fs names end)

-- The serialized scheduler of an object has, of the twelve public names, those that the object has as its
-- own properties, with their values, and it has no other name.
pub lookup-serialize_scheduler :
    (k : String) (fs : Fields)
    → (has_own k (serialize_scheduler (obj fs)) ≡ elem k scheduler_fields && has_own k (obj fs))
      × (get k (serialize_scheduler (obj fs))
          ≡ (if elem k scheduler_fields then get k (obj fs) else undefined))
unfolding serialize_scheduler truthy copy_own_fields
lookup-serialize_scheduler k fs = reads k fs scheduler_fields
