-- ===== src/Nodes/Backend/Reports.antt =====
-- How often a failure of the backend is reported, and what the first observation may overwrite.
use node_red_contrib_bull.Prelude.{
  ℕ, suc, String, ◌≡◌, ◌≤◌, refl, Bool, true, false, List, [], ◌∷◌, arith, if◌then◌else◌,
  Bool-cases, inl, inr, str_eq, str_eq_iff, str_eq_refl, All,
}
use node_red_contrib_bull.Js.Value.{ErrorClass}
use node_red_contrib_bull.Js.Text.{elem}
use node_red_contrib_bull.Nodes.Failures.{Failure, describe_backend_failure}
use node_red_contrib_bull.Nodes.Backend.{
  Status, connecting, connected, disconnected, Backend, initial, publish_backend_status,
  read_backend_status, stop_reading, report_failure, seed_ready, seed_failed,
  report_backend_failure, Event, reads, stops, ready, errors, closes, seeds_ready, node_closes,
  seeds_failed, reports, fails_to_construct, step, run,
}

-- How many failures of a category were reported.
unfoldable pub count : String → List Failure → ℕ
count c [] = 0
count c (f ∷ fs) = let rest = count c fs in if str_eq f.category c then suc rest else rest

abbrev pub closes_node : Event → Bool
closes_node node_closes = true
closes_node _ = false

-- The latch: a category was reported once if it is in the set, and else never.
pub data IsLatched : Backend → Type 0 where
  latched :
      {b : Backend}
      → ((c : String) → count c b.reported ≡ (if elem c b.failures then 1 else 0))
      → IsLatched b

pub publish-IsLatched :
    (s : Status) (b : Backend) → IsLatched b → IsLatched (publish_backend_status s b)
unfolding publish_backend_status
publish-IsLatched s b (latched h) = latched h

report-IsLatched : (f : Failure) (b : Backend) → IsLatched b → IsLatched (report_failure f b)
unfolding count elem
report-IsLatched f b (latched h) = elim (Bool-cases (elem f.category b.failures)) [
  | inl known ↦ rw known (latched h)
  | inr new ↦
      rw new (latched (λ c. ground (arith, h c, str_eq_iff f.category c, str_eq_iff c f.category)))
]

pub latched_count : (c : String) (b : Backend) → IsLatched b → count c b.reported ≤ 1
latched_count c b (latched h) = ground (arith, h c)

seed_ready-IsLatched : (s : Status) (b : Backend) → IsLatched b → IsLatched (seed_ready s b)
seed_ready-IsLatched connecting b h = publish-IsLatched connected b h
seed_ready-IsLatched connected b h = h
seed_ready-IsLatched disconnected b h = h

seed_failed-IsLatched :
    (s : Status) (f : Failure) (b : Backend) → IsLatched b → IsLatched (seed_failed s f b)
seed_failed-IsLatched connecting f b h = report-IsLatched f _ (publish-IsLatched disconnected b h)
seed_failed-IsLatched connected f b h = h
seed_failed-IsLatched disconnected f b h = h

pub reported_once :
    (f : Failure) (b : Backend) → IsLatched b → count f.category (report_failure f b).reported ≡ 1
unfolding count
reported_once f b (latched h) = ground (arith, h f.category, str_eq_refl f.category)

pub initial-IsLatched : IsLatched initial
unfolding count elem
initial-IsLatched = latched (λ c. refl)

abbrev pub is_connecting : Status → Bool
is_connecting connecting = true
is_connecting _ = false

seed_ready-late : (s : Status) (b : Backend) → is_connecting s ≡ false → seed_ready s b ≡ b
seed_ready-late connecting b h = ground arith
seed_ready-late connected b h = refl
seed_ready-late disconnected b h = refl

seed_failed-late :
    (s : Status) (f : Failure) (b : Backend) → is_connecting s ≡ false → seed_failed s f b ≡ b
seed_failed-late connecting f b h = ground arith
seed_failed-late connected f b h = refl
seed_failed-late disconnected f b h = refl

pub report-status : (f : Failure) (b : Backend) → (report_failure f b).status ≡ b.status
report-status f b = ground arith

module _ (low high : String) where
  pub step-IsLatched :
      (b : Backend) (e : Event)
      → closes_node e ≡ false
      → IsLatched b
      → IsLatched (step low high b e)
  unfolding step read_backend_status stop_reading report_backend_failure
  step-IsLatched b (reads i) stays (latched h) = latched h
  step-IsLatched b (stops i) stays (latched h) = latched h
  step-IsLatched b ready stays h = publish-IsLatched connected b h
  step-IsLatched b errors stays h = publish-IsLatched disconnected b h
  step-IsLatched b closes stays h = publish-IsLatched disconnected b h
  step-IsLatched b seeds_ready stays h = seed_ready-IsLatched b.status b h
  step-IsLatched b node_closes stays h = ground arith
  step-IsLatched b (seeds_failed kind m) stays h = seed_failed-IsLatched b.status _ b h
  step-IsLatched b (reports kind m) stays h = report-IsLatched _ b h
  step-IsLatched b (fails_to_construct kind m) stays h =
      report-IsLatched _ _ (publish-IsLatched disconnected b h)

  run-IsLatched :
      (b : Backend) (es : List Event)
      → All (λ e. closes_node e ≡ false) es
      → IsLatched b
      → IsLatched (run low high b es)
  unfolding run
  run-IsLatched b [] stays h = h
  run-IsLatched b (e ∷ es) (here, later) h =
      run-IsLatched (step low high b e) es later (step-IsLatched b e here h)

  -- In a deployment, until the configuration node closes, a failure that any node reports has been
  -- reported exactly once for its category, whatever was observed and reported before.
  pub report_backend_failure-count :
      (es : List Event) (kind : ErrorClass) (m : String)
      → All (λ e. closes_node e ≡ false) es
      → count
          (describe_backend_failure low high kind m).category
          (report_backend_failure low high kind m (run low high initial es)).reported
        ≡ 1
  unfolding report_backend_failure
  report_backend_failure-count es kind m stays =
      reported_once _ _ (run-IsLatched initial es stays initial-IsLatched)

  step-observed :
      (b : Backend) (e : Event)
      → is_connecting b.status ≡ false
      → is_connecting (step low high b e).status ≡ false
  unfolding step read_backend_status stop_reading report_backend_failure publish_backend_status
  step-observed b (reads i) h = h
  step-observed b (stops i) h = h
  step-observed b ready h = refl
  step-observed b errors h = refl
  step-observed b closes h = refl
  step-observed b seeds_ready h = rw (seed_ready-late b.status b h) h
  step-observed b node_closes h = h
  step-observed b (seeds_failed kind m) h = rw (seed_failed-late b.status _ b h) h
  step-observed b (reports kind m) h = rw (report-status _ b) h
  step-observed b (fails_to_construct kind m) h = rw (report-status _ _) refl

  run-observed :
      (b : Backend) (es : List Event)
      → is_connecting b.status ≡ false
      → is_connecting (run low high b es).status ≡ false
  unfolding run
  run-observed b [] h = h
  run-observed b (e ∷ es) h = run-observed (step low high b e) es (step-observed b e h)

  -- Once the backend was observed, by an event or otherwise, neither outcome of `waitUntilReady` changes
  -- anything any more, in any later history: what is memoized never overwrites a live status.
  pub seeds-run :
      (b : Backend) (es : List Event) (kind : ErrorClass) (m : String)
      → is_connecting b.status ≡ false
      → (step low high (run low high b es) seeds_ready ≡ run low high b es)
        × (step low high (run low high b es) (seeds_failed kind m) ≡ run low high b es)
  unfolding step
  seeds-run b es kind m observed =
      let later = run-observed b es observed in
      (seed_ready-late _ _ later, seed_failed-late _ _ _ later)
