-- ===== src/Acknowledgements/Outcomes.antt =====
-- What becomes of an acknowledgement by its id and by its timer.
use node_red_contrib_bull.Prelude.{
  ℕ, String, ◌≡◌, refl, true, none, some, arith, str_eq_iff, inl, inr, Option-cases,
}
use node_red_contrib_bull.Js.Number.{Number}
use node_red_contrib_bull.Js.Value.{ok, throw, new_error}
use node_red_contrib_bull.Acknowledgements.{
  Settlement, reject, Entry, Registry, lookup, settled, settle, missing_message, get_entry,
  timeout_message, fire, is_some,
}
use node_red_contrib_bull.Acknowledgements.Settling.{lookup-remove}
use node_red_contrib_bull.Acknowledgements.Invariant.{IsValid}
use node_red_contrib_bull.Acknowledgements.Cells.{At, settle-At_open}

found_lookup :
    (id : String) (r : Registry) (i : ℕ) → get_entry id r ≡ ok i → lookup id r.entries ≡ some i
unfolding get_entry
found_lookup id r i h = elim (Option-cases (lookup id r.entries)) [
  | inl missing ↦ ground arith
  | inr (j, found) ↦ ground arith
]

-- In a well-formed registry, the entry that `get` finds for an id is there, and settling it, with a
-- value or an error, gives it that settlement and makes `get` throw for the id.
pub get_entry-settle :
    (id : String) (i : ℕ) (s : Settlement) (r : Registry)
    → IsValid r
    → get_entry id r ≡ ok i
    → (e : Entry) × (r.cell i ≡ some e)
      × ((settle i s r).cell i ≡ some (settled s e))
      × (get_entry id (settle i s r) ≡ throw missing_message)
unfolding get_entry
get_entry-settle id i s r v h =
    let (e, at, unsettled, named) = v.live id i (found_lookup id r i h) in
    let new = settle-At_open i s e r at unsettled in
    (
      e,
      at,
      rw new (ground arith),
      rw (new, lookup-remove e.ack_id id r.entries) (ground (arith, str_eq_iff e.ack_id id)),
    )

pub open_of_timer :
    (i : ℕ) (e : Entry) (r : Registry) (ms : Number)
    → IsValid r
    → At i e r
    → e.timer ≡ some ms
    → e.settlement ≡ none
open_of_timer i e r ms v at runs = elim (Option-cases e.settlement) [
  | inl unsettled ↦ unsettled
  | inr (t, done) ↦ ground (arith, v.quiet i e at)
]

-- In a well-formed registry, a running timer that fires fails its acknowledgement with the timeout's
-- message.
pub fire_running :
    (i : ℕ) (e : Entry) (r : Registry) (ms : Number)
    → IsValid r
    → r.cell i ≡ some e
    → e.timer ≡ some ms
    → (fire i r).cell i ≡ some (settled (reject (new_error (timeout_message ms))) e)
unfolding fire
fire_running i e r ms v at runs =
    rw (at, runs) (rw (settle-At_open i _ e r at (open_of_timer i e r ms v at runs)) (ground arith))

-- In a well-formed registry, the timer of an acknowledgement that is settled has no effect.
pub fire_settled :
    (i : ℕ) (e : Entry) (r : Registry)
    → IsValid r
    → r.cell i ≡ some e
    → is_some e.settlement ≡ true
    → fire i r ≡ r
unfolding fire
fire_settled i e r v at done = rw (at, (v.quiet i e at done).0) refl
