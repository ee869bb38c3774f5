-- ===== src/Js/Objects/Laws.antt =====
-- Assignment and spread, for every name.
use node_red_contrib_bull.Prelude.{
  String, ◌≡◌, refl, none, arith, str_eq, str_eq_iff, if◌then◌else◌, Bool-cases, inl, inr,
}
use node_red_contrib_bull.Js.Value.{Value, Fields, end, field}
use node_red_contrib_bull.Js.Objects.{find, lookup, is_some, spread, assign, lookup-assign}

-- No name occurs twice, as in every object of JavaScript.
abbrev pub IsObject : Fields → Type 0
IsObject end = Unit
IsObject (field k v fs) = (lookup k fs ≡ none) × IsObject fs

pub find_field :
    (k j : String) (v : Value) (fs : Fields)
    → find k (field j v fs) ≡ (if str_eq j k then v else find k fs)
unfolding find lookup
find_field k j v fs = ground arith

pub find-assign :
    (k j : String) (v : Value) (fs : Fields)
    → find j (assign k v fs) ≡ (if str_eq k j then v else find j fs)
unfolding find
find-assign k j v fs = ground (arith, lookup-assign k j v fs)

pub lookup-spread :
    (k : String) (base more : Fields)
    → IsObject more
    → lookup k (spread base more)
      ≡ (if is_some (lookup k more) then lookup k more else lookup k base)
unfolding lookup spread
lookup-spread k base end h = refl
lookup-spread k base (field j v fs) (new, h) =
    ground (arith, lookup-spread k (assign j v base) fs h, lookup-assign j k v base, str_eq_iff j k)

assign-IsObject : (k : String) (v : Value) (fs : Fields) → IsObject fs → IsObject (assign k v fs)
unfolding assign lookup
assign-IsObject k v end h = (refl, tt)
assign-IsObject k v (field j w fs) (new, h) = elim (Bool-cases (str_eq j k)) [
  | inl same ↦ rw same (new, h)
  | inr other ↦ rw other (
    ground (arith, lookup-assign k j v fs, str_eq_iff j k, str_eq_iff k j),
    assign-IsObject k v fs h,
  )
]

pub spread-IsObject : (base more : Fields) → IsObject base → IsObject (spread base more)
unfolding spread
spread-IsObject base end h = h
spread-IsObject base (field k v fs) h =
    spread-IsObject (assign k v base) fs (assign-IsObject k v base h)
