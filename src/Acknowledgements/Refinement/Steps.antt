-- ===== src/Acknowledgements/Refinement/Steps.antt =====
-- What each operation of lib/acknowledgements.js makes of the promises of Acknowledgements/Promises.
use node_red_contrib_bull.Prelude.{
  ℕ, String, ◌≡◌, refl, Bool, true, false, not, ◌&&◌, Option, none, some, arith, ◌==◌, str_eq,
  if◌then◌else◌, Bool-cases, Option-cases, inl, inr, ap, sym, ◌≢◌,
}
use node_red_contrib_bull.Js.Number.{Number}
use node_red_contrib_bull.Js.Value.{Value, new_error, to_string}
use node_red_contrib_bull.Acknowledgements.{
  Settlement, reject, Context, Entry, Registry, settled, settle, create, new_id, new_entry, wait,
  fire, timer_of, abort, reject_by_run_node, hears, is_some, same_signal,
}
use node_red_contrib_bull.Acknowledgements.Cells.{
  At, settle_hits-At, settle-At_other, settle-At_done,
}
use node_red_contrib_bull.Acknowledgements.Settling.{
  settle_cases, fire-keeps, reject_each-keeps, abort-keeps,
}
use node_red_contrib_bull.Acknowledgements.Invariant.{IsValid}
use node_red_contrib_bull.Acknowledgements.Closing.{reject_by_run_node-cell}
use node_red_contrib_bull.Acknowledgements.Outcomes.{open_of_timer, fire_running}
use node_red_contrib_bull.Acknowledgements.Aborting.{abort-cell}
use node_red_contrib_bull.Acknowledgements.Promises.{
  Promise, settle_promise, time_out, expire, map_promise, new_promise,
}
use node_red_contrib_bull.Acknowledgements.Refinement.{
  state_of, promise_of, promise_at, IsAttached, Becomes,
}

-- What a settlement makes of a promise.
settle_open :
    (s : Settlement) (e : Entry)
    → e.settlement ≡ none
    → promise_of (settled s e) ≡ settle_promise s (promise_of e)
settle_open s e unsettled = rw unsettled refl

settle_over :
    (s t : Settlement) (e : Entry)
    → e.settlement ≡ some t
    → settle_promise s (promise_of e) ≡ promise_of e
settle_over s t e done = rw done refl

-- An entry that is settled under some condition.
settled_if :
    (b : Bool) (s : Settlement) (e : Entry)
    → promise_of (if b && not (is_some e.settlement) then settled s e else e)
      ≡ (if b then settle_promise s (promise_of e) else promise_of e)
settled_if false s e = refl
settled_if true s e = elim (Option-cases e.settlement) [
  | inl unsettled ↦
      let no : is_some e.settlement ≡ false = ap is_some unsettled in
      rw no (settle_open s e unsettled)
  | inr (t, done) ↦
      let yes_settled : is_some e.settlement ≡ true = ap is_some done in
      rw yes_settled (sym (settle_over s t e done))
]

settle-cell :
    (i j : ℕ) (s : Settlement) (e : Entry) (r : Registry)
    → At j e r
    → (settle i s r).cell j ≡ some (if i == j && not (is_some e.settlement) then settled s e else e)
settle-cell i j s e r at = elim (Bool-cases (i == j)) [
  | inr there ↦ rw there (settle-At_other j i s e r (ground arith) at)
  | inl here ↦
      let same : i ≡ j = ground arith in
      elim (Option-cases e.settlement) [
        | inl unsettled ↦
            let no : is_some e.settlement ≡ false = ap is_some unsettled in
            rw (here, no) (settle_hits-At i j s e r same at unsettled)
        | inr (t, done) ↦
            let yes_settled : is_some e.settlement ≡ true = ap is_some done in
            rw (here, yes_settled) (rw (settle-At_done i s t e r (rw same at) done) at)
      ]
]

pub settle-Becomes :
    (i j : ℕ) (s : Settlement) (e : Entry) (r : Registry)
    → At j e r
    → Becomes j (if i == j then settle_promise s (promise_of e) else promise_of e) (settle i s r)
settle-Becomes i j s e r at = rw (settle-cell i j s e r at) (ap some (settled_if (i == j) s e))

pub settle-absent :
    (i j : ℕ) (s : Settlement) (r : Registry) → r.cell j ≡ none → (settle i s r).cell j ≡ none
settle-absent i j s r absent = elim (settle_cases i s r) [
  | inl same ↦ rw same absent
  | inr (e, found, unsettled, new) ↦ rw new (ground arith)
]

-- The operations that settle, at an entry and where there is none.
pub fire-absent : (i j : ℕ) (r : Registry) → r.cell j ≡ none → (fire i r).cell j ≡ none
fire-absent i j r = fire-keeps (λ r. r.cell j ≡ none) (λ i s r. settle-absent i j s r) i r

pub abort-absent :
    (n s j : ℕ) (reason : Value) (r : Registry)
    → r.cell j ≡ none
    → (abort n s reason r).cell j ≡ none
abort-absent n s j reason r =
    abort-keeps (λ r. r.cell j ≡ none) (λ i s r. settle-absent i j s r) n s reason r

pub reject_by_run_node-absent :
    (node : String) (error : Value) (j : ℕ) (r : Registry)
    → r.cell j ≡ none
    → (reject_by_run_node node error r).cell j ≡ none
unfolding reject_by_run_node
reject_by_run_node-absent node error j r =
    reject_each-keeps (λ r. r.cell j ≡ none) (λ i s r. settle-absent i j s r) node error r.entries r

pub reject-Becomes :
    (node : String) (error : Value) (j : ℕ) (e : Entry) (r : Registry)
    → IsValid r
    → At j e r
    → Becomes j
        (if str_eq e.run_node_id node
          then settle_promise (reject error) (promise_of e)
          else promise_of e)
        (reject_by_run_node node error r)
reject-Becomes node error j e r v at =
    rw (reject_by_run_node-cell node error j e r v at)
      (ap some (settled_if (str_eq e.run_node_id node) (reject error) e))

same_signal_some :
    (t : ℕ) (signal : Option ℕ) → same_signal t signal ≡ (is_some signal && same_signal t signal)
same_signal_some t none = refl
same_signal_some t (some s) = refl

-- A pending entry hears its signal, and nothing is left to hear for a settled one.
heard_if :
    (t : ℕ) (s : Settlement) (e : Entry) (r : Registry)
    → IsAttached r
    → (j : ℕ) → At j e r
    → (if hears t (some e) && not (is_some e.settlement) then settled s e else e)
      ≡ (if same_signal t e.signal && not (is_some e.settlement) then settled s e else e)
unfolding IsAttached
heard_if t s e r attached j at = elim (Option-cases e.settlement) [
  | inl unsettled ↦ rw (attached j e at unsettled) (rw (sym (same_signal_some t e.signal)) refl)
  | inr (u, done) ↦
      let yes_settled : is_some e.settlement ≡ true = ap is_some done in
      rw yes_settled (ground arith)
]

pub abort-Becomes :
    (t : ℕ) (reason : Value) (j : ℕ) (e : Entry) (r : Registry)
    → IsValid r
    → IsAttached r
    → At j e r
    → Becomes j
        (if same_signal t e.signal
          then settle_promise (reject (new_error (to_string reason))) (promise_of e)
          else promise_of e)
        (abort r.next t reason r)
abort-Becomes t reason j e r v attached at =
    let s = reject (new_error (to_string reason)) in
    rw (abort-cell t reason j e r v at, heard_if t s e r attached j at)
      (ap some (settled_if (same_signal t e.signal) s e))

time_out_idle :
    (settlement : Option Settlement)
    → time_out (state_of settlement none) ≡ state_of settlement none
time_out_idle none = refl
time_out_idle (some s) = refl

fire-At_other : (i j : ℕ) (e : Entry) (r : Registry) → i ≢ j → At j e r → At j e (fire i r)
unfolding fire
fire-At_other i j e r other at = elim (Option-cases (timer_of (r.cell i))) [
  | inl idle ↦ rw idle at
  | inr (ms, runs) ↦ rw runs (settle-At_other j i _ e r (λ p. other (sym p)) at)
]

fire_idle : (i : ℕ) (e : Entry) (r : Registry) → At i e r → e.timer ≡ none → fire i r ≡ r
unfolding fire
fire_idle i e r at idle = rw (at, idle) refl

fire-Becomes_own :
    (i : ℕ) (e : Entry) (r : Registry)
    → IsValid r
    → At i e r
    → Becomes i (expire (promise_of e)) (fire i r)
fire-Becomes_own i e r v at = elim (Option-cases e.timer) [
  | inl idle ↦ rw (fire_idle i e r at idle, at) (rw idle (rw (time_out_idle e.settlement) refl))
  | inr (ms, runs) ↦
      let unsettled = open_of_timer i e r ms v at runs in
      rw (fire_running i e r ms v at runs) (rw runs (rw unsettled refl))
]

pub fire-Becomes :
    (i j : ℕ) (e : Entry) (r : Registry)
    → IsValid r
    → At j e r
    → Becomes j (if i == j then expire (promise_of e) else promise_of e) (fire i r)
fire-Becomes i j e r v at = elim (Bool-cases (i == j)) [
  | inr there ↦ rw there (rw (fire-At_other i j e r (ground arith) at) refl)
  | inl here ↦ let same : i ≡ j = ground arith in rw here (rw same (fire-Becomes_own j e r v at))
]

map_same : (p : Option Promise) → map_promise (λ p. p) p ≡ p
map_same none = refl
map_same (some p) = refl

pub wait-at :
    (i j : ℕ) (r : Registry)
    → promise_at ((wait i r).cell j)
      ≡ map_promise (λ p. if i == j then record p { waited = true } else p) (promise_at (r.cell j))
unfolding wait
wait-at i j r = elim (Option-cases (r.cell i)) [
  | inl missing ↦ elim (Bool-cases (i == j)) [
    | inl here ↦
        let same : i ≡ j = ground arith in
        let gone : r.cell j ≡ none = rw (sym same) missing in rw missing (rw gone refl)
    | inr there ↦ rw (missing, there) (sym (map_same (promise_at (r.cell j))))
  ]
  | inr (e, found) ↦ elim (Bool-cases (i == j)) [
    | inl here ↦
        let same : i ≡ j = ground arith in
        let at : At j e r = rw (sym same) found in rw (found, here) (rw at refl)
    | inr there ↦ rw (found, there) (sym (map_same (promise_at (r.cell j))))
  ]
]

pub create-at :
    (c : Context) (timeout_ms : Number) (now : ℕ) (random : String) (j : ℕ) (r : Registry)
    → promise_at ((create c timeout_ms now random r).cell j) ≡ (
        if r.next == j
        then some (new_promise c timeout_ms (new_id c now random))
        else promise_at (r.cell j))
unfolding create new_entry
create-at c timeout_ms now random j r = elim (Bool-cases (r.next == j)) [
  | inl here ↦ rw here refl
  | inr there ↦ rw there refl
]
