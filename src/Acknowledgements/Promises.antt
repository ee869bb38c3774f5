-- ===== src/Acknowledgements/Promises.antt =====
-- What lib/acknowledgements.js promises, without its Map, its timers, its listeners and its emitters: each
-- acknowledgement is pending, with a limit of time or without one, or settled for good.
use node_red_contrib_bull.Prelude.{
  ℕ, suc, String, Bool, true, false, ◌&&◌, List, [], ◌∷◌, Option, none, some, ◌==◌, str_eq,
  if◌then◌else◌,
}
use node_red_contrib_bull.Js.Number.{Number, is_above}
use node_red_contrib_bull.Js.Value.{new_error, to_string}
use node_red_contrib_bull.Acknowledgements.{
  Settlement, resolve, reject, Context, new_id, same_signal, timeout_message,
}
use node_red_contrib_bull.Acknowledgements.History.{
  Event, creates, completes, fails, fires, waits, aborts, rejects,
}

pub data State : Type 0 where
  pending : Option Number → State
  over : Settlement → State

pub record Promise : Type 0 where
  pub context : Context
  pub ack_id : String
  pub state : State
  pub waited : Bool

-- All promises that were made.
pub record Promises : Type 0 where
  pub next : ℕ
  pub promise : ℕ → Option Promise

abbrev pub settlement_of : State → Option Settlement
settlement_of (pending limit) = none
settlement_of (over s) = some s

-- The first settlement is the only one.
abbrev pub settle_state : Settlement → State → State
settle_state s (pending limit) = over s
settle_state s (over t) = over t

abbrev pub settle_promise : Settlement → Promise → Promise
settle_promise s p = record p { state = settle_state s p.state }

abbrev pub time_out : State → State
time_out (pending none) = pending none
time_out (pending (some ms)) = over (reject (new_error (timeout_message ms)))
time_out (over s) = over s

abbrev pub expire : Promise → Promise
expire p = record p { state = time_out p.state }

-- What an event does to a promise, given the number that it has.
abbrev pub affect : Event → ℕ → Promise → Promise
affect (creates c timeout_ms now random) j p = p
affect (completes i value) j p = if i == j then settle_promise (resolve value) p else p
affect (fails i error) j p = if i == j then settle_promise (reject error) p else p
affect (fires i) j p = if i == j then expire p else p
affect (waits i) j p = if i == j then record p { waited = true } else p
affect (aborts s reason) j p =
    if same_signal s p.context.signal
    then settle_promise (reject (new_error (to_string reason))) p
    else p
affect (rejects node error) j p =
    if str_eq p.context.run_node_id node then settle_promise (reject error) p else p

abbrev pub map_promise : (Promise → Promise) → Option Promise → Option Promise
map_promise f none = none
map_promise f (some p) = some (f p)

abbrev pub new_promise : Context → Number → String → Promise
new_promise c timeout_ms id = record {
  context = c;
  ack_id = id;
  state = pending (if is_above timeout_ms 0 then some timeout_ms else none);
  waited = false;
}

unfoldable pub step : Promises → Event → Promises
step ps (creates c timeout_ms now random) = record {
  next = suc ps.next;
  promise = λ j.
      if ps.next == j then some (new_promise c timeout_ms (new_id c now random)) else ps.promise j;
}
step ps e = record ps { promise = λ j. map_promise (affect e j) (ps.promise j) }

unfoldable pub run : Promises → List Event → Promises
run ps [] = ps
run ps (e ∷ es) = run (step ps e) es

-- What a caller sees: whether an id stands for a promise, and what its waiter has.
abbrev pub is_pending : State → Bool
is_pending (pending limit) = true
is_pending (over s) = false

abbrev pub answers_to : String → Option Promise → Bool
answers_to id none = false
answers_to id (some p) = is_pending p.state && str_eq p.ack_id id

abbrev pub outcome_of : Option Promise → Option Settlement
outcome_of none = none
outcome_of (some p) = if p.waited then settlement_of p.state else none
