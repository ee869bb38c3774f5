-- ===== src/Nodes/Backend/Readers.antt =====
-- What the readers of the backend's status know.
use node_red_contrib_bull.Prelude.{
  ℕ, String, ◌≡◌, refl, true, ◌||◌, List, [], ◌∷◌, Option, some, arith, ◌==◌, if◌then◌else◌,
  Bool-cases, inl, inr,
}
use node_red_contrib_bull.Js.Text.{elem}
use node_red_contrib_bull.Nodes.Failures.{Failure}
use node_red_contrib_bull.Nodes.Backend.{
  Status, connecting, connected, disconnected, Backend, initial, has, add_reader, remove_reader,
  tell, tell_all, publish_backend_status, read_backend_status, stop_reading, report_failure,
  seed_ready, seed_failed, report_backend_failure, Event, reads, stops, ready, errors, closes,
  seeds_ready, node_closes, seeds_failed, reports, fails_to_construct, step, run,
}

-- Each reader was last told the current status.
pub data AreCurrent : Backend → Type 0 where
  current :
      {b : Backend} → ((i : ℕ) → has i b.readers ≡ true → b.told i ≡ some b.status) → AreCurrent b

tell_all-has :
    (i : ℕ) (readers : List ℕ) (s : Status) (told : ℕ → Option Status)
    → tell_all readers s told i ≡ (if has i readers then some s else told i)
unfolding tell_all has
tell_all-has i [] s told = refl
tell_all-has i (j ∷ rest) s told = ground (arith, tell_all-has i rest s (tell j s told))

has-remove_reader :
    (i j : ℕ) (readers : List ℕ) → has i (remove_reader j readers) ≡ true → has i readers ≡ true
unfolding has remove_reader
has-remove_reader i j [] h = h
has-remove_reader i j (k ∷ rest) h = ground (arith, has-remove_reader i j rest)

pub has-add_reader :
    (i j : ℕ) (readers : List ℕ) → has i (add_reader j readers) ≡ (i == j || has i readers)
unfolding has
has-add_reader i j readers = ground arith

publish-AreCurrent : (s : Status) (b : Backend) → AreCurrent (publish_backend_status s b)
unfolding publish_backend_status
publish-AreCurrent s b = current (λ i member. ground (arith, tell_all-has i b.readers s b.told))

report-AreCurrent : (f : Failure) (b : Backend) → AreCurrent b → AreCurrent (report_failure f b)
report-AreCurrent f b (current h) = elim (Bool-cases (elem f.category b.failures)) [
  | inl known ↦ rw known (current h)
  | inr new ↦ rw new (current h)
]

seed_ready-AreCurrent : (s : Status) (b : Backend) → AreCurrent b → AreCurrent (seed_ready s b)
seed_ready-AreCurrent connecting b h = publish-AreCurrent connected b
seed_ready-AreCurrent connected b h = h
seed_ready-AreCurrent disconnected b h = h

seed_failed-AreCurrent :
    (s : Status) (f : Failure) (b : Backend) → AreCurrent b → AreCurrent (seed_failed s f b)
seed_failed-AreCurrent connecting f b h = report-AreCurrent f _ (publish-AreCurrent disconnected b)
seed_failed-AreCurrent connected f b h = h
seed_failed-AreCurrent disconnected f b h = h

module _ (low high : String) where
  pub step-AreCurrent : (b : Backend) (e : Event) → AreCurrent b → AreCurrent (step low high b e)
  unfolding step read_backend_status stop_reading report_backend_failure
  step-AreCurrent b (reads i) (current h) =
      current (λ j member. ground (arith, h j, has-add_reader j i b.readers))
  step-AreCurrent b (stops i) (current h) =
      current (λ j member. h j (has-remove_reader j i b.readers member))
  step-AreCurrent b ready h = publish-AreCurrent connected b
  step-AreCurrent b errors h = publish-AreCurrent disconnected b
  step-AreCurrent b closes h = publish-AreCurrent disconnected b
  step-AreCurrent b seeds_ready h = seed_ready-AreCurrent b.status b h
  step-AreCurrent b node_closes (current h) = current h
  step-AreCurrent b (seeds_failed kind m) h = seed_failed-AreCurrent b.status _ b h
  step-AreCurrent b (reports kind m) h = report-AreCurrent _ b h
  step-AreCurrent b (fails_to_construct kind m) h =
      report-AreCurrent _ _ (publish-AreCurrent disconnected b)

  -- If every reader of the status was last told the status that the configuration node has, as with
  -- no readers at first, then this holds after any history, whenever a reader began to read.
  pub run-AreCurrent :
      (b : Backend) (es : List Event) → AreCurrent b → AreCurrent (run low high b es)
  unfolding run
  run-AreCurrent b [] h = h
  run-AreCurrent b (e ∷ es) h = run-AreCurrent (step low high b e) es (step-AreCurrent b e h)

pub initial-AreCurrent : AreCurrent initial
unfolding has
initial-AreCurrent = current (λ i member. ground arith)
