-- ===== src/Nodes/Startup/Worker.antt =====
-- bull-queue.js: `startPostgresWorker` runs the worker once it is ready, and at most once.
use node_red_contrib_bull.Prelude.{
  ℕ, ◌≡◌, refl, Bool, true, false, List, [], ◌∷◌, if◌then◌else◌, Bool-cases, ◌||◌, not, ap, ◌∙◌,
  subst, sym, arith, inl, inr,
}
use node_red_contrib_bull.Js.Value.{Value}
use node_red_contrib_bull.Nodes.Startup.{
  Phase, awaits_ready, awaits_run, ended, Starting, started, Event, resource_errors, ready_rejected,
  run_rejected, resource_ready, resource_closed, ready_fulfilled, run_fulfilled, close_begins,
  on_error, after_ready, after_failure, resume, step_postgres, run_postgres,
}

-- The readiness is fulfilled, and neither a rejection nor the close of the worker came before.
unfoldable pub becomes_ready : List Event → Bool
becomes_ready [] = false
becomes_ready (ready_fulfilled ∷ es) = true
becomes_ready (ready_rejected e ∷ es) = false
becomes_ready (close_begins ∷ es) = false
becomes_ready (_ ∷ es) = becomes_ready es

abbrev pub is_waiting : Phase → Bool
is_waiting awaits_ready = true
is_waiting awaits_run = false
is_waiting ended = false

-- The worker will not be run any more.
abbrev is_blocked : Starting → Bool
is_blocked s = s.closing || not (is_waiting s.phase)

-- What decides whether the worker is run stays as it is.
record IsSame (s s' : Starting) : Type 0 where
  phase : s'.phase ≡ s.phase
  closing : s'.closing ≡ s.closing
  runs : s'.runs ≡ s.runs

on_error-IsSame : (e : Value) (s : Starting) → IsSame s (on_error true e s)
unfolding on_error
on_error-IsSame e s = elim (Bool-cases s.ready) [
  | inl fine ↦ record { phase = rw fine refl; closing = rw fine refl; runs = rw fine refl }
  | inr early ↦ record { phase = rw early refl; closing = rw early refl; runs = rw early refl }
]

failed-blocked :
    (e : Value) (s : Starting)
    → (is_blocked (after_failure e s) ≡ true) × ((after_failure e s).runs ≡ s.runs)
unfolding after_failure
failed-blocked e s = (ground arith, ground arith)

resume_blocked :
    (phase : Phase) (e : Event) (s : Starting)
    → s.phase ≡ phase
    → is_blocked s ≡ true
    → (is_blocked (resume phase e s) ≡ true) × ((resume phase e s).runs ≡ s.runs)
unfolding after_ready
resume_blocked awaits_ready ready_fulfilled s here blocked =
    let closes : s.closing ≡ true = ground (arith, ap is_waiting here, blocked) in
    (ground (arith, closes), ground (arith, closes))
resume_blocked awaits_ready (ready_rejected e) s here blocked = failed-blocked e s
resume_blocked awaits_run run_fulfilled s here blocked = (ground arith, refl)
resume_blocked awaits_run (run_rejected e) s here blocked = failed-blocked e s
resume_blocked phase e s here blocked = (blocked, refl)

step_blocked :
    (s : Starting) (e : Event)
    → is_blocked s ≡ true
    → (is_blocked (step_postgres s e) ≡ true) × ((step_postgres s e).runs ≡ s.runs)
unfolding step_postgres
step_blocked s (resource_errors e) blocked =
    let same = on_error-IsSame e s in (rw (same.phase, same.closing) blocked, same.runs)
step_blocked s resource_ready blocked = (blocked, refl)
step_blocked s resource_closed blocked = (blocked, refl)
step_blocked s close_begins blocked = (refl, refl)
step_blocked s (ready_rejected e) blocked = resume_blocked s.phase (ready_rejected e) s refl blocked
step_blocked s (run_rejected e) blocked = resume_blocked s.phase (run_rejected e) s refl blocked
step_blocked s ready_fulfilled blocked = resume_blocked s.phase ready_fulfilled s refl blocked
step_blocked s run_fulfilled blocked = resume_blocked s.phase run_fulfilled s refl blocked

run_blocked :
    (s : Starting) (es : List Event) → is_blocked s ≡ true → (run_postgres s es).runs ≡ s.runs
unfolding run_postgres
run_blocked s [] blocked = refl
run_blocked s (e ∷ es) blocked =
    let (still, same) = step_blocked s e blocked in run_blocked (step_postgres s e) es still ∙ same

-- A worker that waits to be ready and has not been run.
pub record IsPending (s : Starting) : Type 0 where
  pub phase : s.phase ≡ awaits_ready
  pub closing : s.closing ≡ false
  pub runs : s.runs ≡ 0

pub on_error-IsPending : (e : Value) (s : Starting) → IsPending s → IsPending (on_error true e s)
on_error-IsPending e s h =
    let same = on_error-IsSame e s in
    record {
      phase = same.phase ∙ h.phase;
      closing = same.closing ∙ h.closing;
      runs = same.runs ∙ h.runs;
    }

ready-blocked :
    (s : Starting) → IsPending s → (is_blocked (after_ready s) ≡ true) × ((after_ready s).runs ≡ 1)
unfolding after_ready
ready-blocked s h = (ground (arith, h.closing), ground (arith, h.closing, h.runs))

-- What a promise does while the worker waits to be ready.
resume_pending :
    (s : Starting) (e : Event) (es : List Event) (n : ℕ)
    → IsPending s
    → (run_postgres (resume awaits_ready e s) es).runs ≡ n
    → (run_postgres (resume s.phase e s) es).runs ≡ n
resume_pending s e es n h same =
    subst (λ p. (run_postgres (resume p e s) es).runs ≡ n) (sym h.phase) same

run_pending :
    (s : Starting) (es : List Event)
    → IsPending s
    → (run_postgres s es).runs ≡ (if becomes_ready es then 1 else 0)
unfolding run_postgres becomes_ready step_postgres
run_pending s [] h = h.runs
run_pending s (resource_errors e ∷ es) h =
    run_pending (on_error true e s) es (on_error-IsPending e s h)
run_pending s (resource_ready ∷ es) h = run_pending s es h
run_pending s (resource_closed ∷ es) h =
    run_pending _ es (record { phase = h.phase; closing = h.closing; runs = h.runs })
run_pending s (close_begins ∷ es) h = run_blocked _ es refl ∙ h.runs
run_pending s (ready_rejected e ∷ es) h =
    let (blocked, same) = failed-blocked e s in
    resume_pending s _ es 0 h (run_blocked (after_failure e s) es blocked ∙ same ∙ h.runs)
run_pending s (run_rejected e ∷ es) h = resume_pending s _ es _ h (run_pending s es h)
run_pending s (ready_fulfilled ∷ es) h =
    let (blocked, same) = ready-blocked s h in
    resume_pending s _ es 1 h (run_blocked (after_ready s) es blocked ∙ same)
run_pending s (run_fulfilled ∷ es) h = resume_pending s _ es _ h (run_pending s es h)

-- On PostgreSQL, in every history, the worker of a run node is run at most once: it is run exactly if its readiness
-- is fulfilled, and neither a rejection of the readiness nor the close of the worker came before.
pub run_postgres-runs :
    (es : List Event) → (run_postgres started es).runs ≡ (if becomes_ready es then 1 else 0)
run_postgres-runs es = run_pending started es (record { phase = refl; closing = refl; runs = refl })
