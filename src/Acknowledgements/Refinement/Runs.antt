-- ===== src/Acknowledgements/Refinement/Runs.antt =====
-- The registry of lib/acknowledgements.js and the promises of Acknowledgements/Promises, over every history.
use node_red_contrib_bull.Prelude.{
  ◌≡◌, fun_ext, sym, String, List, [], ◌∷◌, ℕ, String, ◌≡◌, refl, arith, Option-cases, inl, inr,
}
use node_red_contrib_bull.Js.Number.{Number}
use node_red_contrib_bull.Acknowledgements.{
  Settlement, resolve, reject, Context, Registry, settle, create, new_entry, wait,
  reject_by_run_node,
}
use node_red_contrib_bull.Acknowledgements.Settling.{
  settle_cases, fire-keeps, reject_each-keeps, abort-keeps,
}
use node_red_contrib_bull.Acknowledgements.Invariant.{IsValid}
use node_red_contrib_bull.Acknowledgements.History.{
  step-IsValid, run-IsValid, AllFresh, Event, creates, completes, fails, fires, waits, aborts,
  rejects, AllFresh, run-IsValid,
}
use node_red_contrib_bull.Acknowledgements.History
use node_red_contrib_bull.Acknowledgements.Promises.{
  answers_to, outcome_of, State, pending, over, Promise, Promises, settle_promise, affect, time_out,
  expire, map_promise, new_promise, answers_to, outcome_of,
}
use node_red_contrib_bull.Acknowledgements.Promises
use node_red_contrib_bull.Acknowledgements.Refinement.{promise_at, promises_of, IsAttached}
use node_red_contrib_bull.Acknowledgements.Refinement.Steps.{
  settle-Becomes, settle-absent, fire-Becomes, fire-absent, wait-at, create-at,
  reject_by_run_node-absent, reject-Becomes, abort-Becomes, abort-absent,
}

settle-IsAttached :
    (i : ℕ) (s : Settlement) (r : Registry) → IsAttached r → IsAttached (settle i s r)
unfolding IsAttached
settle-IsAttached i s r a = elim (settle_cases i s r) [
  | inl same ↦ rw same a
  | inr (e, found, unsettled, new) ↦ rw new (λ j f at o. ground (arith, a j f))
]

create-IsAttached :
    (c : Context) (timeout_ms : Number) (now : ℕ) (random : String) (r : Registry)
    → IsAttached r
    → IsAttached (create c timeout_ms now random r)
unfolding IsAttached create new_entry
create-IsAttached c timeout_ms now random r a j f at o = ground (arith, a j f)

wait-IsAttached : (i : ℕ) (r : Registry) → IsAttached r → IsAttached (wait i r)
unfolding IsAttached wait
wait-IsAttached i r a = elim (Option-cases (r.cell i)) [
  | inl missing ↦ rw missing a
  | inr (e, found) ↦ rw found (λ j f at o. ground (arith, a j f, a i e found))
]

step-IsAttached : (r : Registry) (e : Event) → IsAttached r → IsAttached (History.step r e)
unfolding History.step reject_by_run_node
step-IsAttached r (creates c timeout_ms now random) a =
    create-IsAttached c timeout_ms now random r a
step-IsAttached r (completes i value) a = settle-IsAttached i (resolve value) r a
step-IsAttached r (fails i error) a = settle-IsAttached i (reject error) r a
step-IsAttached r (fires i) a = fire-keeps IsAttached settle-IsAttached i r a
step-IsAttached r (waits i) a = wait-IsAttached i r a
step-IsAttached r (aborts s reason) a = abort-keeps IsAttached settle-IsAttached r.next s reason r a
step-IsAttached r (rejects node error) a =
    reject_each-keeps IsAttached settle-IsAttached node error r.entries r a

pub run-IsAttached : (r : Registry) (es : List Event) → IsAttached r → IsAttached (History.run r es)
unfolding History.run
run-IsAttached r [] a = a
run-IsAttached r (e ∷ es) a = run-IsAttached (History.step r e) es (step-IsAttached r e a)

-- A change of the entries is a change of their promises.
step-promise :
    (r : Registry) (e : Event) (j : ℕ)
    → IsValid r
    → IsAttached r
    → promise_at ((History.step r e).cell j) ≡ (Promises.step (promises_of r) e).promise j
unfolding History.step Promises.step
step-promise r (creates c timeout_ms now random) j v a = create-at c timeout_ms now random j r
step-promise r (waits i) j v a = wait-at i j r
step-promise r (completes i value) j v a = elim (Option-cases (r.cell j)) [
  | inl absent ↦ rw (absent, settle-absent i j (resolve value) r absent) refl
  | inr (e, at) ↦ rw at (settle-Becomes i j (resolve value) e r at)
]
step-promise r (fails i error) j v a = elim (Option-cases (r.cell j)) [
  | inl absent ↦ rw (absent, settle-absent i j (reject error) r absent) refl
  | inr (e, at) ↦ rw at (settle-Becomes i j (reject error) e r at)
]
step-promise r (fires i) j v a = elim (Option-cases (r.cell j)) [
  | inl absent ↦ rw (absent, fire-absent i j r absent) refl
  | inr (e, at) ↦ rw at (fire-Becomes i j e r v at)
]
step-promise r (aborts s reason) j v a = elim (Option-cases (r.cell j)) [
  | inl absent ↦ rw (absent, abort-absent r.next s j reason r absent) refl
  | inr (e, at) ↦ rw at (abort-Becomes s reason j e r v a at)
]
step-promise r (rejects node error) j v a = elim (Option-cases (r.cell j)) [
  | inl absent ↦ rw (absent, reject_by_run_node-absent node error j r absent) refl
  | inr (e, at) ↦ rw at (reject-Becomes node error j e r v at)
]

settle-next : (n i : ℕ) (s : Settlement) (r : Registry) → r.next ≡ n → (settle i s r).next ≡ n
settle-next n i s r h = elim (settle_cases i s r) [
  | inl same ↦ rw same h
  | inr (e, found, unsettled, new) ↦ rw new h
]

step-next :
    (r : Registry) (e : Event) → (History.step r e).next ≡ (Promises.step (promises_of r) e).next
unfolding History.step Promises.step create wait reject_by_run_node
step-next r (creates c timeout_ms now random) = refl
step-next r (waits i) = elim (Option-cases (r.cell i)) [
  | inl missing ↦ rw missing refl
  | inr (e, found) ↦ rw found refl
]
step-next r (completes i value) = settle-next r.next i (resolve value) r refl
step-next r (fails i error) = settle-next r.next i (reject error) r refl
step-next r (fires i) = fire-keeps (λ x. x.next ≡ r.next) (settle-next r.next) i r refl
step-next r (aborts s reason) =
    abort-keeps (λ x. x.next ≡ r.next) (settle-next r.next) r.next s reason r refl
step-next r (rejects node error) =
    reject_each-keeps (λ x. x.next ≡ r.next) (settle-next r.next) node error r.entries r refl

same_promises : (a b : Promises) → a.next ≡ b.next → ((j : ℕ) → a.promise j ≡ b.promise j) → a ≡ b
same_promises a b n p = λ i. record { next = n i; promise = fun_ext p i }

step_refines :
    (r : Registry) (e : Event)
    → IsValid r
    → IsAttached r
    → promises_of (History.step r e) ≡ Promises.step (promises_of r) e
step_refines r e v a = same_promises _ _ (step-next r e) (λ j. step-promise r e j v a)

-- From any well-formed registry whose pending entries have their abort listeners attached, over any
-- history in which no id is made twice while it is pending, the registry keeps the promises of
-- the specification: its entries, less their listeners and emitters, are what the events make of them
-- when an acknowledgement is only pending or over, and a settlement, a time limit that is reached, an
-- aborted signal or the closing of a run node only ends it once.
pub run_refines :
    (r : Registry) (es : List Event)
    → IsValid r
    → IsAttached r
    → AllFresh r es
    → promises_of (History.run r es) ≡ Promises.run (promises_of r) es
unfolding History.run Promises.run
run_refines r [] v a fresh = refl
run_refines r (e ∷ es) v a (here, later) =
    rw (sym (step_refines r e v a))
      (run_refines (History.step r e) es (step-IsValid r e here v) (step-IsAttached r e a) later)
