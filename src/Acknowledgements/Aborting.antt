-- ===== src/Acknowledgements/Aborting.antt =====
-- The abort listeners of lib/acknowledgements.js.
use node_red_contrib_bull.Prelude.{
  ℕ, zero, suc, ◌<◌, ◌≤◌, ◌≡◌, refl, true, false, none, some, arith, ℕ_discrete, sym, ◌∙◌, not,
  ◌&&◌, if◌then◌else◌, Bool-cases, Option-cases, ap, inl, inr,
}
use node_red_contrib_bull.Js.Value.{Value, new_error, to_string}
use node_red_contrib_bull.Acknowledgements.{reject, Entry, Registry, settled, abort, hears, is_some}
use node_red_contrib_bull.Acknowledgements.Settling.{abort-keeps}
use node_red_contrib_bull.Acknowledgements.Invariant.{IsValid}
use node_red_contrib_bull.Acknowledgements.Cells.{
  At, settle_hits-At, At-if, settle-At_other, settle-At_settled,
}

same_hears :
    (n i s : ℕ) (e : Entry) (r : Registry)
    → n ≡ i
    → At i e r
    → hears s (r.cell n) ≡ hears s (some e)
same_hears n i s e r same at = rw same (rw at refl)

-- The listeners of the first `n` entries: those of later entries, and those that do not listen to
-- the signal, are left alone.
abort-below :
    (n s : ℕ) (reason : Value) (i : ℕ) (e : Entry) (r : Registry)
    → n ≤ i
    → At i e r
    → At i e (abort n s reason r)
unfolding abort
abort-below zero s reason i e r h at = at
abort-below (suc n) s reason i e r h at =
    let before = abort-below n s reason i e r (omega arith) at in
    At-if i e (hears s ((abort n s reason r).cell n)) _ _
      (settle-At_other i n (reject (new_error (to_string reason))) e (abort n s reason r)
        (λ p. absurd (omega arith)) before)
      before

abort-deaf :
    (n s : ℕ) (reason : Value) (i : ℕ) (e : Entry) (r : Registry)
    → hears s (some e) ≡ false
    → At i e r
    → At i e (abort n s reason r)
unfolding abort
abort-deaf zero s reason i e r h at = at
abort-deaf (suc n) s reason i e r h at =
    let before = abort-deaf n s reason i e r h at in
    elim (ℕ_discrete n i) [
      | yes same ↦
          let deaf : hears s ((abort n s reason r).cell n) ≡ false =
            same_hears n i s e (abort n s reason r) same before ∙ h in
          rw deaf before
      | no apart ↦
          At-if i e (hears s ((abort n s reason r).cell n)) _ _
            (settle-At_other i n (reject (new_error (to_string reason))) e (abort n s reason r)
              (λ p. apart (sym p)) before)
            before
    ]

abort-hits :
    (n s : ℕ) (reason : Value) (i : ℕ) (e : Entry) (r : Registry)
    → i < n
    → At i e r
    → e.settlement ≡ none
    → hears s (some e) ≡ true
    → At i (settled (reject (new_error (to_string reason))) e) (abort n s reason r)
unfolding abort
abort-hits zero s reason i e r below at unsettled heard = elim below [ ]
abort-hits (suc n) s reason i e r below at unsettled heard = elim (ℕ_discrete n i) [
  | yes same ↦
      let before = abort-below n s reason i e r (omega arith) at in
      let live : hears s ((abort n s reason r).cell n) ≡ true =
        same_hears n i s e (abort n s reason r) same before ∙ heard in
      rw live (
        settle_hits-At n i (reject (new_error (to_string reason))) e (abort n s reason r) same
          before unsettled)
  | no apart ↦
      let done = settled (reject (new_error (to_string reason))) e in
      let before = abort-hits n s reason i e r (omega arith) at unsettled heard in
      At-if i done (hears s ((abort n s reason r).cell n)) _ _
        (settle-At_settled i (reject (new_error (to_string reason))) done refl n
          (reject (new_error (to_string reason))) (abort n s reason r) before)
        before
]

-- Aborting a signal, in a well-formed registry, fails every acknowledgement that is not settled and
-- listens to it, with an error that carries the reason, and leaves every other acknowledgement as it is.
pub abort-cell :
    (s : ℕ) (reason : Value) (i : ℕ) (e : Entry) (r : Registry)
    → IsValid r
    → r.cell i ≡ some e
    → (abort r.next s reason r).cell i
      ≡ some (
          if hears s (some e) && not (is_some e.settlement)
          then settled (reject (new_error (to_string reason))) e
          else e)
abort-cell s reason i e r v at = elim (Bool-cases (hears s (some e))) [
  | inr deaf ↦ rw deaf (abort-deaf r.next s reason i e r deaf at)
  | inl heard ↦ elim (Option-cases e.settlement) [
    | inl unsettled ↦
        let no : is_some e.settlement ≡ false = ap is_some unsettled in
        rw (heard, no) (abort-hits r.next s reason i e r (v.bounded i e at) at unsettled heard)
    | inr (t, done) ↦
        let yes_settled : is_some e.settlement ≡ true = ap is_some done in
        rw (heard, yes_settled)
          (abort-keeps (At i e) (λ j s r. settle-At_settled i t e done j s r) r.next s reason r at)
  ]
]
