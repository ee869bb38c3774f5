-- ===== src/Acknowledgements/Refinement.antt =====
-- lib/acknowledgements.js keeps the promises of Acknowledgements/Promises.
pub mod Steps
pub mod Runs
pub mod Observations
use node_red_contrib_bull.Prelude.{
  ℕ, ◌<◌, suc, String, ◌≡◌, refl, Bool, true, false, not, ◌&&◌, List, [], ◌∷◌, Option, none, some,
  arith, ◌==◌, str_eq, str_eq_iff, if◌then◌else◌, Bool-cases, Option-cases, inl, inr, fun_ext, ap,
  sym, ◌∙◌, ℕ_discrete, ◌≢◌,
}
use node_red_contrib_bull.Js.Number.{Number}
use node_red_contrib_bull.Js.Value.{Value, Result, ok, err, new_error, to_string}
use node_red_contrib_bull.Acknowledgements.{
  Settlement, resolve, reject, Context, Entry, Registry, update, settled, settle, create, new_id,
  new_entry, get_entry, wait, lookup, fire, timer_of, fire_cell, abort, reject_by_run_node, hears,
  is_some, same_signal, timeout_message,
}
use node_red_contrib_bull.Acknowledgements.Cells.{
  At, settle_hits-At, settle-At_other, settle-At_done,
}
use node_red_contrib_bull.Acknowledgements.Settling.{
  settle_cases, fire-keeps, reject_each-keeps, abort-keeps,
}
use node_red_contrib_bull.Acknowledgements.Invariant.{IsValid, settle-IsValid}
use node_red_contrib_bull.Acknowledgements.History.{
  Event, creates, completes, fails, fires, waits, aborts, rejects, AllFresh, run-IsValid,
}
use node_red_contrib_bull.Acknowledgements.History
use node_red_contrib_bull.Acknowledgements.Closing.{reject_by_run_node-cell}
use node_red_contrib_bull.Acknowledgements.Outcomes.{open_of_timer, fire_running}
use node_red_contrib_bull.Acknowledgements.Aborting.{abort-cell}
use node_red_contrib_bull.Acknowledgements.Promises.{
  State, pending, over, Promise, Promises, settle_promise, affect, time_out, expire, map_promise,
  new_promise, answers_to, outcome_of,
}
use node_red_contrib_bull.Acknowledgements.Promises

-- The promise of an entry, which forgets its listener and what its waiter has.
abbrev pub state_of : Option Settlement → Option Number → State
state_of none timer = pending timer
state_of (some s) timer = over s

abbrev pub promise_of : Entry → Promise
promise_of e = record {
  context = e.context;
  ack_id = e.ack_id;
  state = state_of e.settlement e.timer;
  waited = e.waited;
}

abbrev pub promise_at : Option Entry → Option Promise
promise_at none = none
promise_at (some e) = some (promise_of e)

-- The promises of a registry.
abbrev pub promises_of : Registry → Promises
promises_of r = record { next = r.next; promise = λ j. promise_at (r.cell j) }

-- A pending entry listens to its signal.
unfoldable pub IsAttached : Registry → Type 0
IsAttached r =
    (i : ℕ) (e : Entry) → r.cell i ≡ some e → e.settlement ≡ none → e.listening ≡ is_some e.signal

-- A promise that an entry became.
abbrev pub Becomes : ℕ → Promise → Registry → Type 0
Becomes j p r = promise_at (r.cell j) ≡ some p
