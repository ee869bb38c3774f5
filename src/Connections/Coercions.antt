-- ===== src/Connections/Coercions.antt =====
-- lib/connections.js: fields of a configuration as Booleans, ports and counts.
use node_red_contrib_bull.Prelude.{ℕ, String, Bool, not, ◌||◌, [], ◌∷◌, ◌<>◌, str_eq, if◌then◌else◌}
use node_red_contrib_bull.Js.Text.{trim, to_lower, elem}
use node_red_contrib_bull.Js.Number.{Number, nat, is_integer, is_below, is_above, is_nonzero}
use node_red_contrib_bull.Js.Value.{
  Value, undefined, null, bool, num, str, obj, Fields, end, field, Result, ok, ◌>>=◌, throw,
  is_present, is_undefined, to_string, to_number,
}
use node_red_contrib_bull.Js.Objects.{find, assign}

unfoldable pub to_boolean : Value → Bool → Bool
unfolding is_nonzero elem to_lower
to_boolean undefined default_value = default_value
to_boolean null default_value = default_value
to_boolean (str s) default_value =
    if str_eq s "" then default_value else elem (to_lower s) ("true" ∷ "1" ∷ "yes" ∷ "on" ∷ [])
to_boolean (bool b) default_value = b
to_boolean (num n) default_value = is_nonzero n
to_boolean v default_value = elem (to_lower (to_string v)) ("true" ∷ "1" ∷ "yes" ∷ "on" ∷ [])

-- `!Number.isInteger(n) || n < least`
abbrev pub not_whole_from : ℕ → Number → Bool
not_whole_from least n = not (is_integer n) || is_below n least

unfoldable pub to_port : Value → Number → String → Result Number
to_port value default_value label =
    let port = to_number value in
    if not (is_present value)
    then ok default_value
    else if not_whole_from 1 port || is_above port 65535
    then throw ("Invalid " <> label <> " port: " <> to_string value)
    else ok port

unfoldable pub normalize_backend : Fields → Result String
normalize_backend config =
    let backend = to_lower (trim (to_string (find "backend" config))) in
    if not (is_present (find "backend" config))
    then ok "redis"
    else if elem backend ("redis" ∷ "postgres" ∷ [])
    then ok backend
    else throw ("Unsupported backend: " <> to_string (find "backend" config))

abbrev pub default_pool_max : ℕ
default_pool_max = 2

unfoldable pub to_pool_max : Value → Result Number
to_pool_max value =
    let max = to_number value in
    if not (is_present value)
    then ok (nat default_pool_max)
    else if not_whole_from 1 max
    then throw "PostgreSQL pool max must be a positive whole number of connections"
    else ok max

-- `credentials[name]` if it is present.
unfoldable pub read_secret : Fields → String → Value
read_secret credentials name =
    if is_present (find name credentials) then find name credentials else undefined

-- The number of jobs to keep, or `undefined`.
unfoldable pub to_keep_count : Value → String → Result Value
to_keep_count value name =
    let count = to_number value in
    if not (is_present value)
    then ok undefined
    else if not_whole_from 0 count
    then throw (name <> " must be a non-negative whole number of jobs to keep")
    else ok (num count)

-- `if (value !== undefined) fields[name] = value`
abbrev pub assign_defined : String → Value → Fields → Fields
assign_defined name value fields = if is_undefined value then fields else assign name value fields

abbrev pub object_unless_empty : Fields → Value
object_unless_empty end = undefined
object_unless_empty (field k v fs) = obj (field k v fs)

unfoldable pub build_default_job_options : Fields → Result Value
build_default_job_options config = do
  remove_on_complete ← to_keep_count (find "removeOnComplete" config) "removeOnComplete"
  remove_on_fail ← to_keep_count (find "removeOnFail" config) "removeOnFail"
  ok (
      object_unless_empty (
        assign_defined "removeOnFail" remove_on_fail
          (assign_defined "removeOnComplete" remove_on_complete end)))
