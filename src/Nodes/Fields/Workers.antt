-- ===== src/Nodes/Fields/Workers.antt =====
-- The options of a worker of bull-queue.js that are accepted.
use node_red_contrib_bull.Prelude.{ℕ, ◌≤◌, String, ◌≡◌, refl, Bool, not, Option, none, some, arith}
use node_red_contrib_bull.Js.Number.{nat}
use node_red_contrib_bull.Js.Number.Whole.{IsWhole, IsWhole-checks}
use node_red_contrib_bull.Js.Value.{Value, Fields, ok, is_present, to_number}
use node_red_contrib_bull.Js.Results.{
  Returns, returned, thrown, Returns-at, Returns-if, Returns-test, Returns-bind,
}
use node_red_contrib_bull.Js.Objects.{find, is_some}
use node_red_contrib_bull.Connections.Coercions.{not_whole_from}
use node_red_contrib_bull.Connections.Bounds.{nat-IsPort}
use node_red_contrib_bull.Connections.Endpoints.{bool_eq}
use node_red_contrib_bull.Nodes.Fields.{
  positive_integer, parse_positive_integer, Limiter, WorkerOptions, limiter_of, worker_options_of,
}

-- The limits are whole and positive.
abbrev pub IsLimit : Option Limiter → Type 0
IsLimit none = Unit
IsLimit (some l) = IsWhole 1 l.max × IsWhole 1 l.duration

pub record IsAccepted (n : Fields) (postgres : Bool) (o : WorkerOptions) : Type 0 where
  pub concurrency_bounds : IsWhole 1 o.concurrency
  pub attempts_bounds : IsWhole 1 o.max_started_attempts
  pub limiter_bounds : IsLimit o.limiter
  pub limited : is_some o.limiter ≡ is_present (find "limiterMax" n)
  pub together : is_present (find "limiterMax" n) ≡ is_present (find "limiterDuration" n)
  pub starts : o.autorun ≡ not postgres

positive_integer-IsWhole :
    (value : Value) (label : String) → Returns (IsWhole 1) (positive_integer value label)
unfolding positive_integer
positive_integer-IsWhole value label =
    Returns-test (not_whole_from 1 (to_number value)) (λ _. thrown)
      (λ h. returned (IsWhole-checks 0 (to_number value) (ground arith) (ground arith)))

parse_positive_integer-IsWhole :
    (value : Value) (d : ℕ) (label : String)
    → 1 ≤ d
    → d ≤ 65535
    → Returns (IsWhole 1) (parse_positive_integer value (nat d) label)
unfolding parse_positive_integer
parse_positive_integer-IsWhole value d label least most =
    Returns-if (is_present value) (positive_integer-IsWhole value label)
      (returned (nat-IsPort d least most).whole)

limiter_of-IsLimit :
    (n : Fields)
    → Returns
        (λ l.
          IsLimit l
          × (is_some l ≡ is_present (find "limiterMax" n))
          × (is_present (find "limiterMax" n) ≡ is_present (find "limiterDuration" n)))
        (limiter_of n)
limiter_of-IsLimit n =
    Returns-test
      (not (bool_eq (is_present (find "limiterMax" n)) (is_present (find "limiterDuration" n))))
      (λ _. thrown)
      (λ same.
        Returns-test (is_present (find "limiterMax" n))
          (λ given.
            Returns-bind (positive_integer-IsWhole (find "limiterMax" n) "Limiter Max") (λ max p.
              Returns-bind (positive_integer-IsWhole (find "limiterDuration" n) "Limiter Duration")
                (λ duration q. returned ((p, q), ground arith, ground arith))))
          (λ absent. returned (tt, ground arith, ground arith)))

options-IsAccepted :
    (n : Fields) (postgres : Bool) → Returns (IsAccepted n postgres) (worker_options_of n postgres)
unfolding worker_options_of
options-IsAccepted n postgres =
    Returns-bind
      (parse_positive_integer-IsWhole (find "concurrency" n) 1 "Concurrency" (omega arith)
        (omega arith))
      (λ c p.
        Returns-bind
          (parse_positive_integer-IsWhole (find "maxStartedAttempts" n) 100 "Max Started Attempts"
            (omega arith) (omega arith))
          (λ m q. Returns-bind (limiter_of-IsLimit n) (λ l (b, s, t). returned (record {
            concurrency_bounds = p;
            attempts_bounds = q;
            limiter_bounds = b;
            limited = s;
            together = t;
            starts = refl;
          }))))

-- The options that a run node accepts for its worker have a concurrency and attempts that are whole and
-- positive; there is a limiter exactly if both its fields are present, and none exactly if both are absent, and
-- its limits are whole and positive; and the worker starts by itself unless the backend is PostgreSQL.
pub worker_options_of-IsAccepted :
    (n : Fields) (postgres : Bool) (o : WorkerOptions)
    → worker_options_of n postgres ≡ ok o
    → IsAccepted n postgres o
worker_options_of-IsAccepted n postgres o h = Returns-at o (options-IsAccepted n postgres) h
