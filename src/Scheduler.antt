-- ===== src/Scheduler.antt =====
-- lib/scheduler.js: the id of a job scheduler, and its public view.
pub mod Laws
use node_red_contrib_bull.Prelude.{String, List, [], ◌∷◌, str_eq, if◌then◌else◌}
use node_red_contrib_bull.Js.Text.{trim}
use node_red_contrib_bull.Js.Value.{
  Value, str, obj, Fields, end, Result, ok, err, throw, truthy, or_value, to_string,
}
use node_red_contrib_bull.Js.Objects.{get, has_own, assign}

-- `String(value || "").trim()`
unfoldable pub trimmed_text : Value → String
unfolding or_value to_string trim
trimmed_text v = trim (to_string (or_value v (str "")))

unfoldable pub get_scheduler_id : Value → Result String
unfolding get trimmed_text
get_scheduler_id msg =
    let scheduler_id = trimmed_text (get "schedulerId" msg) in
    if str_eq scheduler_id "" then throw "A scheduler id is required" else ok scheduler_id

-- The loop of `serializeScheduler`.
copy_own : Value → List String → Fields → Fields
copy_own scheduler [] result = result
copy_own scheduler (key ∷ rest) result =
    copy_own scheduler rest
      (if has_own key scheduler then assign key (get key scheduler) result else result)

abbrev pub scheduler_fields : List String
scheduler_fields =
    "id" ∷ "key" ∷ "name" ∷ "next" ∷ "pattern" ∷ "every" ∷ "limit" ∷ "offset" ∷ "tz" ∷ "endDate"
    ∷ "startDate" ∷ "iterationCount" ∷ []

-- The loop over some names.
unfoldable pub copy_own_fields : Value → List String → Value
unfolding copy_own has_own assign get
copy_own_fields scheduler names = obj (copy_own scheduler names end)

unfoldable pub serialize_scheduler : Value → Value
unfolding truthy
serialize_scheduler scheduler =
    if truthy scheduler then copy_own_fields scheduler scheduler_fields else scheduler
