-- ===== src/Nodes/Backend.antt =====
-- bull-queue.js: the status of the backend and the failures that a `bullmq-queue-server` node keeps.
-- `told` is the status that each reader was last called with, and `reported` is what was given to
-- `node.error`, the latest first. A reader is named by a number.
pub mod Readers
pub mod Reports
use node_red_contrib_bull.Prelude.{
  ℕ, String, Bool, true, false, ◌||◌, List, [], ◌∷◌, Option, none, some, ◌==◌, str_eq,
  if◌then◌else◌,
}
use node_red_contrib_bull.Js.Text.{elem}
use node_red_contrib_bull.Js.Value.{ErrorClass}
use node_red_contrib_bull.Nodes.Failures.{Failure, describe_backend_failure}

pub data Status : Type 0 where
  connecting connected disconnected : Status

pub record Backend : Type 0 where
  pub status : Status
  pub readers : List ℕ
  pub failures : List String
  pub told : ℕ → Option Status
  pub reported : List Failure

abbrev pub initial : Backend
initial = record {
  status = connecting;
  readers = [];
  failures = [];
  told = λ _. none;
  reported = [];
}

unfoldable pub has : ℕ → List ℕ → Bool
has i [] = false
has i (j ∷ rest) = i == j || has i rest

-- `backendReaders.add(read)`, `backendReaders.delete(read)`
abbrev pub add_reader : ℕ → List ℕ → List ℕ
add_reader i readers = if has i readers then readers else i ∷ readers

unfoldable pub remove_reader : ℕ → List ℕ → List ℕ
remove_reader i [] = []
remove_reader i (j ∷ rest) = let kept = remove_reader i rest in if i == j then kept else j ∷ kept

abbrev pub tell : ℕ → Status → (ℕ → Option Status) → ℕ → Option Status
tell i status told j = if i == j then some status else told j

-- `for (const read of node.backendReaders) read(status)`
unfoldable pub tell_all : List ℕ → Status → (ℕ → Option Status) → ℕ → Option Status
tell_all [] status told = told
tell_all (i ∷ rest) status told = tell_all rest status (tell i status told)

unfoldable pub publish_backend_status : Status → Backend → Backend
publish_backend_status status b = record b {
  status = status;
  told = tell_all b.readers status b.told;
}

unfoldable pub read_backend_status : ℕ → Backend → Backend
read_backend_status i b = record b {
  readers = add_reader i b.readers;
  told = tell i b.status b.told;
}

unfoldable pub stop_reading : ℕ → Backend → Backend
stop_reading i b = record b { readers = remove_reader i b.readers }

abbrev pub report_failure : Failure → Backend → Backend
report_failure f b =
    if elem f.category b.failures
    then b
    else record b { failures = f.category ∷ b.failures; reported = f ∷ b.reported }

-- `waitUntilReady` of `watchBackend` was fulfilled.
abbrev pub seed_ready : Status → Backend → Backend
seed_ready connecting b = publish_backend_status connected b
seed_ready status b = b

-- It was rejected, or threw.
abbrev pub seed_failed : Status → Failure → Backend → Backend
seed_failed connecting f b = report_failure f (publish_backend_status disconnected b)
seed_failed status f b = b

-- `node.backendFailures.clear()` of `onClose`
abbrev pub clear_failures : Backend → Backend
clear_failures b = record b { failures = [] }

-- What the backend's events, the nodes and the constructors of `createResource` do. `ready`,
-- `errors` and `closes` are events of the backend; `seeds_failed` and `fails_to_construct` carry the
-- error; `reports` is a call of `reportBackendFailure` by another node.
pub data Event : Type 0 where
  reads stops : ℕ → Event
  ready errors closes seeds_ready node_closes : Event
  seeds_failed reports fails_to_construct : ErrorClass → String → Event

module _ (minimum_version recommended_version : String) where
  unfoldable pub report_backend_failure : ErrorClass → String → Backend → Backend
  report_backend_failure kind m b =
      report_failure (describe_backend_failure minimum_version recommended_version kind m) b

  unfoldable pub step : Backend → Event → Backend
  step b (reads i) = read_backend_status i b
  step b (stops i) = stop_reading i b
  step b ready = publish_backend_status connected b
  step b errors = publish_backend_status disconnected b
  step b closes = publish_backend_status disconnected b
  step b seeds_ready = seed_ready b.status b
  step b (seeds_failed kind m) =
      seed_failed b.status (describe_backend_failure minimum_version recommended_version kind m) b
  step b (reports kind m) = report_backend_failure kind m b
  step b (fails_to_construct kind m) =
      report_backend_failure kind m (publish_backend_status disconnected b)
  step b node_closes = clear_failures b

  unfoldable pub run : Backend → List Event → Backend
  run b [] = b
  run b (e ∷ es) = run (step b e) es
