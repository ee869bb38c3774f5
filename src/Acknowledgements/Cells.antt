-- ===== src/Acknowledgements/Cells.antt =====
-- One entry on the heap of lib/acknowledgements.js, and what a settlement does to it.
use node_red_contrib_bull.Prelude.{
  ℕ, ◌≡◌, refl, Bool, true, false, none, some, arith, if◌then◌else◌, inl, inr, ◌≢◌,
}
use node_red_contrib_bull.Acknowledgements.{
  Settlement, Entry, Registry, settled, settle_new, settle,
}
use node_red_contrib_bull.Acknowledgements.Settling.{settle_cases}

-- An entry as it stands at an address.
abbrev pub At : ℕ → Entry → Registry → Type 0
At i e r = r.cell i ≡ some e

pub At-if :
    (i : ℕ) (e : Entry) (b : Bool) (x y : Registry)
    → At i e x
    → At i e y
    → At i e (if b then x else y)
At-if i e true x y h k = h
At-if i e false x y h k = k

pub settle-At_open :
    (i : ℕ) (s : Settlement) (e : Entry) (r : Registry)
    → At i e r
    → e.settlement ≡ none
    → settle i s r ≡ settle_new i s e r
unfolding settle
settle-At_open i s e r at unsettled = rw at (rw unsettled refl)

pub settle-At_done :
    (i : ℕ) (s t : Settlement) (e : Entry) (r : Registry)
    → At i e r
    → e.settlement ≡ some t
    → settle i s r ≡ r
unfolding settle
settle-At_done i s t e r at done = rw at (rw done refl)

pub settle-At_other :
    (i j : ℕ) (s : Settlement) (e : Entry) (r : Registry) → i ≢ j → At i e r → At i e (settle j s r)
settle-At_other i j s e r other at = elim (settle_cases j s r) [
  | inl same ↦ rw same at
  | inr (f, found, unsettled, new) ↦ rw new (ground arith)
]

pub settle_hits :
    (i : ℕ) (s : Settlement) (e : Entry) (r : Registry)
    → At i e r
    → e.settlement ≡ none
    → At i (settled s e) (settle i s r)
settle_hits i s e r at unsettled = rw (settle-At_open i s e r at unsettled) (ground arith)

pub settle_hits-At :
    (n i : ℕ) (s : Settlement) (e : Entry) (r : Registry)
    → n ≡ i
    → At i e r
    → e.settlement ≡ none
    → At i (settled s e) (settle n s r)
settle_hits-At n i s e r same at unsettled = rw same (settle_hits i s e r at unsettled)

pub settle-At_settled :
    (i : ℕ) (t : Settlement) (e : Entry)
    → e.settlement ≡ some t
    → (j : ℕ) (s : Settlement) (r : Registry) → At i e r
    → At i e (settle j s r)
settle-At_settled i t e done j s r at = elim (settle_cases j s r) [
  | inl same ↦ rw same at
  | inr (f, found, unsettled, new) ↦ rw new (ground arith)
]
