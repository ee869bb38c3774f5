-- ===== src/Js/Value.antt =====
-- JavaScript values as the sources use them, and what a function of theirs returns or throws. An
-- object is its own enumerable properties in the order of insertion; prototypes, accessors and the
-- order of integer keys are left out. `failure` is an instance of Error, told apart by its class.
use Prim.Native.String.{[], ◌∷◌}
use mathlib.Core.List.{[], ◌∷◌}
use node_red_contrib_bull.Prelude.{
  String, ◌≡◌, refl, Bool, true, false, not, List, ◌<>◌, str_eq, if◌then◌else◌,
}
use node_red_contrib_bull.Js.Number.{Number, nan, nat, is_nonzero, of_string, show_nat}
use node_red_contrib_bull.Js.Number

-- The classes of errors that the sources construct or test with `instanceof`.
pub data ErrorClass : Type 0 where
  plain type_error unrecoverable waiting delayed rate_limit : ErrorClass
  schema_migration_required schema_version_mismatch unsupported_postgres_version : ErrorClass

mutual
  pub data Value : Type 0 where
    undefined null : Value
    bool : Bool → Value
    num : Number → Value
    str : String → Value
    arr : Items → Value
    obj : Fields → Value
    failure : ErrorClass → String → Value

  pub data Items : Type 0 where
    nil : Items
    cons : Value → Items → Items

  pub data Fields : Type 0 where
    end : Fields
    field : String → Value → Fields → Fields

-- What a call returns, or the value that it throws.
pub data Result {ℓ} (A : Type ℓ) : Type ℓ where
  ok : A → Result A
  err : Value → Result A

infixl 5 ◌>>=◌ ◌>>◌
abbrev pub ◌>>=◌ {ℓ κ} : {A : Type ℓ} {B : Type κ} → Result A → (A → Result B) → Result B
ok a >>= f = f a
err e >>= f = err e

abbrev pub ◌>>◌ {ℓ κ} : {A : Type ℓ} {B : Type κ} → Result A → Result B → Result B
m >> k = m >>= λ _. k

-- `new Error(message)`
abbrev pub new_error : String → Value
new_error message = failure plain message

abbrev pub throw {ℓ} : {A : Type ℓ} → String → Result A
throw message = err (new_error message)

abbrev pub items : Items → List Value
items nil = []
items (cons v vs) = v ∷ items vs

abbrev pub of_items : List Value → Items
of_items [] = nil
of_items (v ∷ vs) = cons v (of_items vs)

abbrev pub class_name : ErrorClass → String
class_name plain = "Error"
class_name type_error = "TypeError"
class_name unrecoverable = "UnrecoverableError"
class_name waiting = "WaitingError"
class_name delayed = "DelayedError"
class_name rate_limit = "RateLimitError"
class_name schema_migration_required = "SchemaMigrationRequiredError"
class_name schema_version_mismatch = "SchemaVersionMismatchError"
class_name unsupported_postgres_version = "UnsupportedPostgresVersionError"

-- `String(error)`
abbrev show_failure : String → String → String
show_failure name [] = name
show_failure name (c ∷ s) = name <> ": " <> (c ∷ s)

-- `Boolean(value)`
unfoldable pub truthy : Value → Bool
truthy undefined = false
truthy null = false
truthy (bool b) = b
truthy (num n) = is_nonzero n
truthy (str s) = not (str_eq s "")
truthy _ = true

-- `value !== undefined && value !== null && value !== ""`: `isPresent` of lib/connections.js,
-- lib/commands.js and bull-queue.js.
unfoldable pub is_present : Value → Bool
is_present undefined = false
is_present null = false
is_present (str s) = not (str_eq s "")
is_present _ = true

-- `value === undefined || value === null`
unfoldable pub is_nullish : Value → Bool
is_nullish undefined = true
is_nullish null = true
is_nullish _ = false

unfoldable pub is_undefined : Value → Bool
is_undefined undefined = true
is_undefined _ = false

-- `Array.isArray(value)`
unfoldable pub is_array : Value → Bool
is_array (arr _) = true
is_array _ = false

-- `typeof value === "object" && value !== null`
unfoldable pub is_object : Value → Bool
is_object (arr _) = true
is_object (obj _) = true
is_object (failure _ _) = true
is_object _ = false

-- `a || b`
unfoldable pub or_value : Value → Value → Value
unfolding truthy
or_value a b = if truthy a then a else b

-- `String(value)`
unfoldable mutual
  unfolding Number.to_string

  pub to_string : Value → String
  to_string undefined = "undefined"
  to_string null = "null"
  to_string (bool b) = if b then "true" else "false"
  to_string (num n) = Number.to_string n
  to_string (str s) = s
  to_string (arr vs) = join vs
  to_string (obj _) = "[object Object]"
  to_string (failure k m) = show_failure (class_name k) m

  -- `array.join(",")`, where `undefined` and `null` are empty.
  pub join : Items → String
  join nil = ""
  join (cons undefined vs) = join_more vs
  join (cons null vs) = join_more vs
  join (cons v vs) = to_string v <> join_more vs

  pub join_more : Items → String
  join_more nil = ""
  join_more (cons undefined vs) = "," <> join_more vs
  join_more (cons null vs) = "," <> join_more vs
  join_more (cons v vs) = "," <> to_string v <> join_more vs

-- `Number(value)`
unfoldable pub to_number : Value → Number
unfolding of_string to_string
to_number undefined = nan
to_number null = nat 0
to_number (bool b) = if b then nat 1 else nat 0
to_number (num n) = n
to_number (str s) = of_string s
to_number (arr vs) = of_string (to_string (arr vs))
to_number (obj _) = nan
to_number (failure _ _) = nan

to_string_test :
    to_string (arr (cons (num (nat 1)) (cons null (cons (bool true) (cons (obj end) nil)))))
    ≡ "1,,true,[object Object]"
unfolding to_string
to_string_test = refl
