-- ===== src/Acknowledgements/Refinement/Observations.antt =====
-- What the callers of lib/acknowledgements.js see, over every history.
use node_red_contrib_bull.Prelude.{
  ◌≡◌, Bool, true, false, ◌==◌, sym, String, Bool-cases, List, Option, none, some, str_eq,
  str_eq_iff, not, ◌∙◌, ℕ, String, ◌≡◌, refl, arith, Option-cases, inl, inr,
}
use node_red_contrib_bull.Js.Number.{Number}
use node_red_contrib_bull.Js.Value.{Result, ok, err}
use node_red_contrib_bull.Acknowledgements.{get_entry, lookup, Entry, Settlement, Registry}
use node_red_contrib_bull.Acknowledgements.Invariant.{IsValid}
use node_red_contrib_bull.Acknowledgements.History.{
  step-IsValid, run-IsValid, AllFresh, Event, creates, completes, fails, fires, waits, aborts,
  rejects, AllFresh, run-IsValid,
}
use node_red_contrib_bull.Acknowledgements.History
use node_red_contrib_bull.Acknowledgements.Promises.{
  answers_to, outcome_of, State, pending, over, Promise, Promises, settle_promise, affect, time_out,
  expire, map_promise, new_promise, answers_to, outcome_of,
}
use node_red_contrib_bull.Acknowledgements.Promises
use node_red_contrib_bull.Acknowledgements.Refinement.{promise_at, promises_of, IsAttached}
use node_red_contrib_bull.Acknowledgements.{Number, is_some}
use node_red_contrib_bull.Acknowledgements.Refinement.{state_of, promise_of}
use node_red_contrib_bull.Acknowledgements.Promises.{settlement_of, is_pending}
use node_red_contrib_bull.Acknowledgements.Refinement.Runs.{run_refines}

abbrev pub finds : ℕ → Result ℕ → Bool
finds i (ok j) = j == i
finds i (err error) = false

abbrev pub outcome_at : Option Entry → Option Settlement
outcome_at none = none
outcome_at (some e) = e.outcome

settlement_of-state_of :
    (o : Option Settlement) (timer : Option Number) → settlement_of (state_of o timer) ≡ o
settlement_of-state_of none timer = refl
settlement_of-state_of (some s) timer = refl

waiter_has :
    (e : Entry)
    → (e.waited ≡ true → e.outcome ≡ e.settlement) × (e.waited ≡ false → e.outcome ≡ none)
    → e.outcome ≡ outcome_of (some (promise_of e))
waiter_has e h = elim (Bool-cases e.waited) [
  | inl suspended ↦ rw suspended (h.0 suspended ∙ sym (settlement_of-state_of e.settlement e.timer))
  | inr alone ↦ rw alone (h.1 alone)
]

is_pending-state_of :
    (o : Option Settlement) (timer : Option Number)
    → is_pending (state_of o timer) ≡ not (is_some o)
is_pending-state_of none timer = refl
is_pending-state_of (some s) timer = refl

get_entry-pending :
    (id : String) (i : ℕ) (f : Entry) (r : Registry)
    → IsValid r
    → r.cell i ≡ some f
    → f.settlement ≡ none
    → finds i (get_entry id r) ≡ answers_to id (promise_at (r.cell i))
unfolding get_entry
get_entry-pending id i f r v there pends = elim (Bool-cases (str_eq f.ack_id id)) [
  | inl mine ↦
      let found : lookup id r.entries ≡ some i =
        rw (sym ((str_eq_iff f.ack_id id).0 mine)) (v.registered i f there pends) in
      rw (there, found) (rw (pends, mine) (ground arith))
  | inr other ↦ elim (Option-cases (lookup id r.entries)) [
    | inl lost ↦ rw (there, lost) (rw (pends, other) refl)
    | inr (j, found) ↦
        let (e, at, unsettled, named) = v.live id j found in
        rw (there, found) (rw (pends, other) (ground (arith, str_eq_iff f.ack_id id)))
  ]
]

-- What a caller sees of a registry is what the promises say.
get_entry-answers :
    (id : String) (i : ℕ) (r : Registry)
    → IsValid r
    → finds i (get_entry id r) ≡ answers_to id (promise_at (r.cell i))
unfolding get_entry
get_entry-answers id i r v = elim (Option-cases (r.cell i)) [
  | inl absent ↦ elim (Option-cases (lookup id r.entries)) [
    | inl lost ↦ rw (absent, lost) refl
    | inr (j, found) ↦
        let (e, at, unsettled, named) = v.live id j found in rw (absent, found) (ground arith)
  ]
  | inr (f, there) ↦ elim (Option-cases f.settlement) [
    | inl pends ↦ get_entry-pending id i f r v there pends
    | inr (t, done) ↦ elim (Option-cases (lookup id r.entries)) [
      | inl lost ↦ rw (there, lost) (rw done refl)
      | inr (j, found) ↦
          let (e, at, unsettled, named) = v.live id j found in
          rw (there, found) (rw done (ground arith))
    ]
  ]
]

outcome-promised :
    (i : ℕ) (r : Registry) → IsValid r → outcome_at (r.cell i) ≡ outcome_of (promise_at (r.cell i))
outcome-promised i r v = elim (Option-cases (r.cell i)) [
  | inl absent ↦ rw absent refl
  | inr (e, at) ↦ rw at (waiter_has e (v.delivered i e at))
]

-- From any well-formed registry whose pending entries have their abort listeners attached, over any
-- history in which no id is made twice while it is pending, `get` finds the entry with a number for an id
-- exactly when the specification has that promise pending under that id, and the waiter of an entry has
-- returned or thrown exactly the settlement that the specification gives the promise, if it waits and the
-- promise is over.
pub run-observations :
    (r : Registry) (es : List Event) (id : String) (i : ℕ)
    → IsValid r
    → IsAttached r
    → AllFresh r es
    → (finds i (get_entry id (History.run r es))
        ≡ answers_to id ((Promises.run (promises_of r) es).promise i))
      × (outcome_at ((History.run r es).cell i)
          ≡ outcome_of ((Promises.run (promises_of r) es).promise i))
run-observations r es id i v a fresh =
    let end = run-IsValid r es v fresh in
    rw (sym (run_refines r es v a fresh))
      (get_entry-answers id i (History.run r es) end, outcome-promised i (History.run r es) end)
