-- ===== src/Acknowledgements/History.antt =====
-- What holds of an acknowledgement over every history of calls, timers and aborted signals.
use node_red_contrib_bull.Prelude.{
  ℕ, ◌<◌, String, ◌≡◌, true, List, [], ◌∷◌, Option, none, some, arith, ◌==◌, inl, inr, Option-cases,
  Bool-cases, fun_ext,
}
use node_red_contrib_bull.Js.Number.{Number}
use node_red_contrib_bull.Js.Value.{Value}
use node_red_contrib_bull.Acknowledgements.{
  Settlement, resolve, reject, Context, Entry, Registry, update, lookup, settle_cell, settle,
  complete, fail, new_id, create, reject_by_run_node, fire, abort, wait,
}
use node_red_contrib_bull.Acknowledgements.Settling.{
  settle_cases, fire-keeps, reject_each-keeps, abort-keeps,
}
use node_red_contrib_bull.Acknowledgements.Invariant.{
  IsValid, settle-IsValid, create-IsValid, wait-IsValid,
}

-- What the nodes, the timers and the workers do with the registry.
pub data Event : Type 0 where
  creates : Context → Number → ℕ → String → Event
  completes fails : ℕ → Value → Event
  fires waits : ℕ → Event
  aborts : ℕ → Value → Event
  rejects : String → Value → Event

unfoldable pub step : Registry → Event → Registry
step r (creates c timeout_ms now random) = create c timeout_ms now random r
step r (completes i value) = complete i value r
step r (fails i error) = fail i error r
step r (fires i) = fire i r
step r (waits i) = wait i r
step r (aborts s reason) = abort r.next s reason r
step r (rejects node error) = reject_by_run_node node error r

unfoldable pub run : Registry → List Event → Registry
run r [] = r
run r (e ∷ es) = run (step r e) es

-- An id that `Date.now` and `Math.random` make is not the id of a pending acknowledgement.
abbrev pub IsFresh : Registry → Event → Type 0
IsFresh r (creates c timeout_ms now random) = lookup (new_id c now random) r.entries ≡ none
IsFresh r _ = Unit

abbrev pub AllFresh : Registry → List Event → Type 0
AllFresh r [] = Unit
AllFresh r (e ∷ es) = IsFresh r e × AllFresh (step r e) es

pub step-IsValid : (r : Registry) (e : Event) → IsFresh r e → IsValid r → IsValid (step r e)
unfolding step reject_by_run_node
step-IsValid r (creates c timeout_ms now random) fresh v =
    create-IsValid c timeout_ms now random r v fresh
step-IsValid r (completes i value) fresh v = settle-IsValid i (resolve value) r v
step-IsValid r (fails i error) fresh v = settle-IsValid i (reject error) r v
step-IsValid r (fires i) fresh v = fire-keeps IsValid settle-IsValid i r v
step-IsValid r (waits i) fresh v = wait-IsValid i r v
step-IsValid r (aborts s reason) fresh v = abort-keeps IsValid settle-IsValid r.next s reason r v
step-IsValid r (rejects node error) fresh v =
    reject_each-keeps IsValid settle-IsValid node error r.entries r v

-- After any history, from any well-formed registry, in which no id is made twice while it is
-- pending: the registry holds exactly the acknowledgements that are not settled, each under its own
-- id, settled ones have no timer and no abort listener left, and every waiter has its settlement.
pub run-IsValid : (r : Registry) (es : List Event) → IsValid r → AllFresh r es → IsValid (run r es)
unfolding run
run-IsValid r [] v fresh = v
run-IsValid r (e ∷ es) v (here, later) = run-IsValid (step r e) es (step-IsValid r e here v) later

-- The entry at an address has a settlement.
abbrev pub HasSettlement : ℕ → Settlement → Registry → Type 0
HasSettlement i s r = (i < r.next) × (e : Entry) × (r.cell i ≡ some e) × (e.settlement ≡ some s)

settle-HasSettlement :
    (i : ℕ) (s : Settlement) (j : ℕ) (t : Settlement) (r : Registry)
    → HasSettlement i s r
    → HasSettlement i s (settle j t r)
settle-HasSettlement i s j t r (below, e, at, done) = elim (settle_cases j t r) [
  | inl same ↦ rw same (below, e, at, done)
  | inr (f, found, unsettled, new) ↦ rw new (below, e, ground arith, done)
]

wait-HasSettlement :
    (i : ℕ) (s : Settlement) (j : ℕ) (r : Registry)
    → HasSettlement i s r
    → HasSettlement i s (wait j r)
unfolding wait
wait-HasSettlement i s j r (below, e, at, done) = elim (Option-cases (r.cell j)) [
  | inl missing ↦ rw missing (below, e, at, done)
  | inr (f, found) ↦ elim (Bool-cases (j == i)) [
    | inl same ↦
        rw found (below, record f { waited = true; outcome = f.settlement }, rw same, ground arith)
    | inr other ↦ rw found (below, e, rw other at, done)
  ]
]

step-HasSettlement :
    (i : ℕ) (s : Settlement) (r : Registry) (e : Event)
    → HasSettlement i s r
    → HasSettlement i s (step r e)
unfolding step reject_by_run_node create
step-HasSettlement i s r (creates c timeout_ms now random) (below, e, at, done) =
    (omega arith, e, ground arith, done)
step-HasSettlement i s r (completes j value) h = settle-HasSettlement i s j (resolve value) r h
step-HasSettlement i s r (fails j error) h = settle-HasSettlement i s j (reject error) r h
step-HasSettlement i s r (fires j) h =
    fire-keeps (HasSettlement i s) (settle-HasSettlement i s) j r h
step-HasSettlement i s r (waits j) h = wait-HasSettlement i s j r h
step-HasSettlement i s r (aborts t reason) h =
    abort-keeps (HasSettlement i s) (settle-HasSettlement i s) r.next t reason r h
step-HasSettlement i s r (rejects node error) h =
    reject_each-keeps (HasSettlement i s) (settle-HasSettlement i s) node error r.entries r h

-- The first settlement of an acknowledgement is its only one: no later call, timer, abort or close
-- of a node replaces it, in any history, fresh ids or not.
pub run-HasSettlement :
    (i : ℕ) (s : Settlement) (r : Registry) (es : List Event)
    → HasSettlement i s r
    → HasSettlement i s (run r es)
unfolding run
run-HasSettlement i s r [] h = h
run-HasSettlement i s r (e ∷ es) h =
    run-HasSettlement i s (step r e) es (step-HasSettlement i s r e h)

update-update :
    (cell : ℕ → Option Entry) (i : ℕ) (a b : Entry) → update (update cell i a) i b ≡ update cell i b
update-update cell i a b = fun_ext λ j. ground arith

same_index : (i : ℕ) → (i == i) ≡ true
same_index i = ground arith

-- No settlement is lost between the test and the wait of `wait`: waiting before a settlement and
-- waiting after it leave the same registry, so the waiter has the same outcome.
pub settle-wait :
    (i : ℕ) (s : Settlement) (r : Registry) → settle i s (wait i r) ≡ wait i (settle i s r)
unfolding settle wait
settle-wait i s r = elim (Option-cases (r.cell i)) [
  | inl missing ↦ rw (missing, missing)
  | inr (e, found) ↦ elim (Option-cases e.settlement) [
    | inl unsettled ↦
        rw (found, settle_cell) (rw unsettled (rw (same_index i) (simp update-update)))
    | inr (t, done) ↦ rw (found, settle_cell) (rw done (rw (same_index i) (rw found (rw done))))
  ]
]
