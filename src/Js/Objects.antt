-- ===== src/Js/Objects.antt =====
-- Properties of JavaScript objects: reading, own properties, assignment and object spread.

pub mod Laws
use node_red_contrib_bull.Prelude.{
  ℕ, suc, String, ◌≡◌, refl, Bool, true, false, List, [], ◌∷◌, Option, none, some, arith, str_eq,
  str_eq_iff, if◌then◌else◌,
}
use node_red_contrib_bull.Js.Number.{show_nat}
use node_red_contrib_bull.Js.Value.{
  Value, undefined, null, str, arr, obj, failure, Items, nil, cons, Fields, end, field,
}

unfoldable pub lookup : String → Fields → Option Value
lookup k end = none
lookup k (field j v fs) = if str_eq j k then some v else lookup k fs

abbrev pub or_undefined : Option Value → Value
or_undefined none = undefined
or_undefined (some v) = v

-- `fields[name]`
unfoldable pub find : String → Fields → Value
unfolding lookup
find k fs = or_undefined (lookup k fs)

-- `value.name`, where `value` is neither `undefined` nor `null`.
unfoldable pub get : String → Value → Value
unfolding find
get k (obj fs) = find k fs
get k (failure _ m) = if str_eq k "message" then str m else undefined
get k _ = undefined

abbrev pub is_some {ℓ} : {A : Type ℓ} → Option A → Bool
is_some none = false
is_some (some _) = true

-- `Object.hasOwn(value, name)` for an object.
unfoldable pub has_own : String → Value → Bool
unfolding lookup
has_own k (obj fs) = is_some (lookup k fs)
has_own k _ = false

-- `fields[name] = value`
unfoldable pub assign : String → Value → Fields → Fields
assign k v end = field k v end
assign k v (field j w fs) = if str_eq j k then field j v fs else field j w (assign k v fs)

-- `{ ...base, ...more }`
unfoldable pub spread : Fields → Fields → Fields
unfolding assign
spread base end = base
spread base (field k v fs) = spread (assign k v base) fs

index_items : ℕ → Items → Fields
index_items n nil = end
index_items n (cons v vs) = field (show_nat n) v (index_items (suc n) vs)

index_text : ℕ → String → Fields
index_text n String.[] = end
index_text n (String.◌∷◌ c s) =
    field (show_nat n) (str (String.◌∷◌ c String.[])) (index_text (suc n) s)

-- The own enumerable properties of a value, as object spread reads them.
unfoldable pub own_fields : Value → Fields
unfolding index_items index_text show_nat
own_fields (obj fs) = fs
own_fields (arr vs) = index_items 0 vs
own_fields (str s) = index_text 0 s
own_fields _ = end

unfoldable pub keys : Fields → List String
keys end = []
keys (field k v fs) = k ∷ keys fs

-- Assignment in one equation for every name.
pub lookup-assign :
    (k j : String) (v : Value) (fs : Fields)
    → lookup j (assign k v fs) ≡ (if str_eq k j then some v else lookup j fs)
unfolding lookup assign
lookup-assign k j v end = refl
lookup-assign k j v (field i w fs) =
    ground (arith, str_eq_iff k j, str_eq_iff i k, str_eq_iff i j, lookup-assign k j v fs)

spread_test :
    spread (field "a" null (field "b" null end)) (field "b" undefined (field "c" null end))
    ≡ field "a" null (field "b" undefined (field "c" null end))
unfolding spread
spread_test = refl
