-- ===== src/Nodes/Fields.antt =====
-- bull-queue.js: `parsePositiveInteger`, and the options of the worker that `BullQueueRunNode` makes of its
-- fields.
pub mod Workers
use node_red_contrib_bull.Prelude.{
  ℕ, String, Bool, true, false, not, Option, none, some, ◌<>◌, if◌then◌else◌,
}
use node_red_contrib_bull.Js.Number.{Number, nat}
use node_red_contrib_bull.Js.Value.{
  Value, Fields, Result, ok, err, ◌>>=◌, ◌>>◌, throw, is_present, to_number,
}
use node_red_contrib_bull.Js.Objects.{find}
use node_red_contrib_bull.Connections.Coercions.{not_whole_from}
use node_red_contrib_bull.Connections.Endpoints.{bool_eq}

-- A value that is present.
unfoldable pub positive_integer : Value → String → Result Number
positive_integer value label =
    if not_whole_from 1 (to_number value)
    then throw (label <> " must be a positive integer")
    else ok (to_number value)

unfoldable pub parse_positive_integer : Value → Number → String → Result Number
parse_positive_integer value default_value label =
    if is_present value then positive_integer value label else ok default_value

pub record Limiter : Type 0 where
  pub max : Number
  pub duration : Number

pub record WorkerOptions : Type 0 where
  pub concurrency : Number
  pub max_started_attempts : Number
  pub limiter : Option Limiter
  pub autorun : Bool

abbrev pub read_limiter : Fields → Result (Option Limiter)
read_limiter n = do
  max ← positive_integer (find "limiterMax" n) "Limiter Max"
  duration ← positive_integer (find "limiterDuration" n) "Limiter Duration"
  ok (some (record { max = max; duration = duration }))

-- Both fields of the limiter are present, or none is.
abbrev pub limiter_of : Fields → Result (Option Limiter)
limiter_of n =
    if not (bool_eq (is_present (find "limiterMax" n)) (is_present (find "limiterDuration" n)))
    then throw "Limiter Max and Limiter Duration must be set together"
    else if is_present (find "limiterMax" n)
    then read_limiter n
    else ok none

-- The worker over PostgreSQL starts when its backend is ready.
unfoldable pub worker_options_of : Fields → Bool → Result WorkerOptions
worker_options_of n postgres = do
  concurrency ← parse_positive_integer (find "concurrency" n) (nat 1) "Concurrency"
  max_started_attempts ←
      parse_positive_integer (find "maxStartedAttempts" n) (nat 100) "Max Started Attempts"
  limiter ← limiter_of n
  ok (record {
    concurrency = concurrency;
    max_started_attempts = max_started_attempts;
    limiter = limiter;
    autorun = not postgres;
  })
