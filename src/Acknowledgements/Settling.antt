-- ===== src/Acknowledgements/Settling.antt =====
-- One settlement: what it does to the entries and to the Map, and induction over the operations
-- that settle.
use node_red_contrib_bull.Prelude.{
  ℕ, zero, suc, String, ◌≡◌, refl, Bool, true, false, List, [], ◌∷◌, none, some, arith, str_eq,
  str_eq_iff, if◌then◌else◌, Option-cases, inl, inr, ◌⊎◌,
}
use node_red_contrib_bull.Js.Value.{Value}
use node_red_contrib_bull.Acknowledgements.{
  Settlement, Entry, Registry, lookup, insert, remove, settle_new, settle, reject_each, fire,
  timer_of, abort,
}

pub lookup-remove :
    (id k : String) (m : List (String × ℕ))
    → lookup k (remove id m) ≡ (if str_eq id k then none else lookup k m)
unfolding lookup remove
lookup-remove id k [] = ground arith
lookup-remove id k ((j, i) ∷ m) =
    ground (arith, lookup-remove id k m, str_eq_iff id k, str_eq_iff j k, str_eq_iff j id)

pub lookup-insert :
    (id k : String) (i : ℕ) (m : List (String × ℕ))
    → lookup k (insert id i m) ≡ (if str_eq id k then some i else lookup k m)
unfolding lookup insert
lookup-insert id k i [] = refl
lookup-insert id k i ((j, n) ∷ m) =
    ground (arith, lookup-insert id k i m, str_eq_iff id k, str_eq_iff j k, str_eq_iff j id)

-- A settlement changes nothing, or settles an entry that was open.
pub settle_cases :
    (i : ℕ) (s : Settlement) (r : Registry)
    → (settle i s r ≡ r)
      ⊎ ((e : Entry) × (r.cell i ≡ some e)
          × (e.settlement ≡ none)
          × (settle i s r ≡ settle_new i s e r))
unfolding settle
settle_cases i s r = elim (Option-cases (r.cell i)) [
  | inl missing ↦ inl (rw (missing, settle) refl)
  | inr (e, found) ↦ elim (Option-cases e.settlement) [
    | inl unsettled ↦ inr (e, found, unsettled, rw (found, settle) (ground arith))
    | inr (t, done) ↦ inl (rw (found, settle) (ground arith))
  ]
]

-- What every settlement keeps, the operations that settle keep.
keep_if {κ} :
    (P : Registry → Type κ) (b : Bool) (x y : Registry) → P x → P y → P (if b then x else y)
keep_if P true x y h k = h
keep_if P false x y h k = k

module _ {κ} (P : Registry → Type κ)
    (keep : (i : ℕ) (s : Settlement) (r : Registry) → P r → P (settle i s r)) where
  pub fire-keeps : (i : ℕ) (r : Registry) → P r → P (fire i r)
  unfolding fire
  fire-keeps i r h = elim (Option-cases (timer_of (r.cell i))) [
    | inl idle ↦ rw idle h
    | inr (ms, runs) ↦ rw runs (keep i _ r h)
  ]

  pub reject_each-keeps :
      (node : String) (error : Value) (m : List (String × ℕ)) (r : Registry)
      → P r
      → P (reject_each node error m r)
  unfolding reject_each
  reject_each-keeps node error [] r h = h
  reject_each-keeps node error ((k, i) ∷ m) r h =
      reject_each-keeps node error m _ (keep_if P _ _ r (keep i _ r h) h)

  pub abort-keeps : (n s : ℕ) (reason : Value) (r : Registry) → P r → P (abort n s reason r)
  unfolding abort
  abort-keeps zero s reason r h = h
  abort-keeps (suc n) s reason r h =
      keep_if P _ _ _ (keep n _ _ (abort-keeps n s reason r h)) (abort-keeps n s reason r h)
