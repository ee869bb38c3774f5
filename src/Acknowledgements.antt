-- ===== src/Acknowledgements.antt =====
-- lib/acknowledgements.js: acknowledgements of active jobs, and their registry. An entry is an
-- object shared by the registry, its timer, its abort listener and its waiter, so entries stand on
-- a heap, and the registry's Map gives the address for an id. The event loop is a list of events.
pub mod Settling
pub mod Invariant
pub mod History
pub mod Cells
pub mod Outcomes
pub mod Closing
pub mod Aborting
pub mod Timeouts
pub mod Promises
pub mod Refinement
use node_red_contrib_bull.Prelude.{
  ℕ, suc, String, ◌≡◌, refl, Bool, true, false, not, ◌||◌, ◌&&◌, List, [], ◌∷◌, Option, none, some,
  ◌<>◌, ◌==◌, str_eq, if◌then◌else◌,
}
use node_red_contrib_bull.Js.Number.{Number, nat, is_finite, is_below, is_above, show_nat}
use node_red_contrib_bull.Js.Number
use node_red_contrib_bull.Js.Value.{
  Value, Result, ok, err, throw, new_error, is_present, to_number, to_string,
}
use node_red_contrib_bull.Js.Objects.{get}

pub data Settlement : Type 0 where
  resolve reject : Value → Settlement

-- What the worker's processor hands to `create`; a signal is named by a number.
pub record Context : Type 0 where
  pub job : Value
  pub queue_name : String
  pub run_node_id : String
  pub token : Value
  pub signal : Option ℕ

-- `timer` is the delay of a timer that is running and `listening` says that the abort listener is
-- attached; `waited` says that `wait` was called, and `outcome` is what it has returned or thrown.
pub record Entry : Type 0 where
  pub context : Context
  pub open context use *
  pub ack_id : String
  pub settlement : Option Settlement
  pub timer : Option Number
  pub listening : Bool
  pub waited : Bool
  pub outcome : Option Settlement

pub record Registry : Type 0 where
  pub next : ℕ
  pub cell : ℕ → Option Entry
  pub entries : List (String × ℕ)

abbrev pub empty : Registry
empty = record { next = 0; cell = λ _. none; entries = [] }

abbrev pub update : (ℕ → Option Entry) → ℕ → Entry → ℕ → Option Entry
update cell i e j = if i == j then some e else cell j

-- `entries.get(id)`, `entries.set(id, entry)` and `entries.delete(id)`.
unfoldable pub lookup : String → List (String × ℕ) → Option ℕ
lookup id [] = none
lookup id ((k, i) ∷ rest) = if str_eq k id then some i else lookup id rest

unfoldable pub insert : String → ℕ → List (String × ℕ) → List (String × ℕ)
insert id i [] = (id, i) ∷ []
insert id i ((k, j) ∷ rest) = if str_eq k id then (k, i) ∷ rest else (k, j) ∷ insert id i rest

unfoldable pub remove : String → List (String × ℕ) → List (String × ℕ)
remove id [] = []
remove id ((k, j) ∷ rest) = let kept = remove id rest in if str_eq k id then kept else (k, j) ∷ kept

-- `settlement` is set, the timer is cleared, the abort listener is removed, and a waiter that is
-- suspended resumes.
abbrev pub settled : Settlement → Entry → Entry
settled s e = record e {
  settlement = some s;
  timer = none;
  listening = false;
  outcome = if e.waited then some s else e.outcome;
}

-- The listener of `create` drops the entry's id from the Map.
abbrev pub settle_new : ℕ → Settlement → Entry → Registry → Registry
settle_new i s e r = record r {
  cell = update r.cell i (settled s e);
  entries = remove e.ack_id r.entries;
}

abbrev pub settle_entry : ℕ → Settlement → Entry → Option Settlement → Registry → Registry
settle_entry i s e (some _) r = r
settle_entry i s e none r = settle_new i s e r

abbrev pub settle_cell : ℕ → Settlement → Option Entry → Registry → Registry
settle_cell i s none r = r
settle_cell i s (some e) r = settle_entry i s e e.settlement r

-- `settle`, `complete` and `fail` of AcknowledgementEntry.
unfoldable pub settle : ℕ → Settlement → Registry → Registry
unfolding remove
settle i s r = settle_cell i s (r.cell i) r

abbrev pub complete : ℕ → Value → Registry → Registry
complete i value = settle i (resolve value)

abbrev pub fail : ℕ → Value → Registry → Registry
fail i error = settle i (reject error)

unfoldable pub new_id : Context → ℕ → String → String
unfolding get to_string show_nat
new_id c now random =
    c.run_node_id <> ":" <> to_string (get "id" c.job) <> ":" <> show_nat now <> ":" <> random

abbrev pub is_some {ℓ} : {A : Type ℓ} → Option A → Bool
is_some none = false
is_some (some _) = true

-- The constructor of AcknowledgementEntry.
unfoldable pub new_entry : Context → Number → String → Entry
unfolding is_above
new_entry c timeout_ms id = record {
  context = c;
  ack_id = id;
  settlement = none;
  timer = if is_above timeout_ms 0 then some timeout_ms else none;
  listening = is_some c.signal;
  waited = false;
  outcome = none;
}

-- `create`, at a time and with the digits that `Math.random` gave.
unfoldable pub create : Context → Number → ℕ → String → Registry → Registry
unfolding new_entry new_id insert
create c timeout_ms now random r =
    let id = new_id c now random in
    record {
      next = suc r.next;
      cell = update r.cell r.next (new_entry c timeout_ms id);
      entries = insert id r.next r.entries;
    }

abbrev pub missing_message : String
missing_message = "Missing, stale, or already-settled BullMQ acknowledgement"

abbrev pub found_entry : Option ℕ → Result ℕ
found_entry none = throw missing_message
found_entry (some i) = ok i

-- `get`: the address of the entry.
unfoldable pub get_entry : String → Registry → Result ℕ
unfolding lookup
get_entry id r = found_entry (lookup id r.entries)

abbrev pub belongs_to : String → Option Entry → Bool
belongs_to node none = false
belongs_to node (some e) = str_eq e.run_node_id node

-- The loop of `rejectByRunNode`, over the snapshot of the Map's values.
unfoldable pub reject_each : String → Value → List (String × ℕ) → Registry → Registry
unfolding settle
reject_each node error [] r = r
reject_each node error ((_, i) ∷ rest) r =
    reject_each node error rest (if belongs_to node (r.cell i) then fail i error r else r)

unfoldable pub reject_by_run_node : String → Value → Registry → Registry
unfolding reject_each
reject_by_run_node node error r = reject_each node error r.entries r

-- The timer of an entry fires, if it is running.
abbrev pub timeout_message : Number → String
timeout_message ms = "BullMQ job acknowledgement timed out after " <> Number.to_string ms <> "ms"

abbrev pub fire_cell : ℕ → Option Number → Registry → Registry
fire_cell i none r = r
fire_cell i (some ms) r = fail i (new_error (timeout_message ms)) r

abbrev pub timer_of : Option Entry → Option Number
timer_of none = none
timer_of (some e) = e.timer

unfoldable pub fire : ℕ → Registry → Registry
unfolding settle Number.to_string
fire i r = fire_cell i (timer_of (r.cell i)) r

abbrev pub same_signal : ℕ → Option ℕ → Bool
same_signal s none = false
same_signal s (some t) = s == t

abbrev pub hears : ℕ → Option Entry → Bool
hears s none = false
hears s (some e) = e.listening && same_signal s e.signal

-- A signal is aborted: the listeners attached to it run, those of the first `n` entries here.
unfoldable pub abort : ℕ → ℕ → Value → Registry → Registry
unfolding settle to_string
abort ℕ.zero s reason r = r
abort (suc n) s reason r =
    let before = abort n s reason r in
    if hears s (before.cell n) then fail n (new_error (to_string reason)) before else before

abbrev pub wait_cell : ℕ → Option Entry → Registry → Registry
wait_cell i none r = r
wait_cell i (some e) r = record r {
  cell = update r.cell i (record e { waited = true; outcome = e.settlement });
}

-- `wait`: it has its outcome at once if the entry is settled, and else when it will be.
unfoldable pub wait : ℕ → Registry → Registry
wait i r = wait_cell i (r.cell i) r

-- `parseAckTimeoutMs`
unfoldable pub parse_ack_timeout_ms : Value → Number → Number
parse_ack_timeout_ms value default_ms =
    let parsed = to_number value in
    if not (is_present value)
    then default_ms
    else if not (is_finite parsed) || is_below parsed 0
    then default_ms
    else parsed
