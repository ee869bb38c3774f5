-- ===== src/Nodes/Startup/Owner.antt =====
-- bull-queue.js: to whom the failures of a worker on PostgreSQL are told.
use node_red_contrib_bull.Prelude.{
  ◌≡◌, refl, true, false, List, [], ◌∷◌, ◌++◌, Bool-cases, arith, inl, inr, ◌∙◌, subst, sym, ap,
}
use node_red_contrib_bull.Js.Value.{Value}
use node_red_contrib_bull.Nodes.Startup.{
  Phase, awaits_ready, awaits_run, ended, Starting, started, Event, resource_errors, ready_rejected,
  run_rejected, resource_ready, resource_closed, ready_fulfilled, run_fulfilled, close_begins,
  on_error, after_ready, after_failure, resume, step_postgres, run_postgres,
}
use node_red_contrib_bull.Nodes.Startup.Worker.{
  becomes_ready, is_waiting, IsPending, on_error-IsPending,
}

-- A worker that was ready.
record IsReady (s : Starting) : Type 0 where
  ready : s.ready ≡ true
  worker_ready : s.worker_ready ≡ true
  phase : is_waiting s.phase ≡ false

-- A step of a worker that was ready leaves it so, and tells the configuration node nothing.
abbrev Quiet : Starting → Starting → Type 0
Quiet s s' = IsReady s' × (s'.told_owner ≡ s.told_owner)

on_error-Quiet : (e : Value) (s : Starting) → IsReady s → Quiet s (on_error true e s)
unfolding on_error
on_error-Quiet e s h = (
  record {
    ready = ground (arith, h.ready);
    worker_ready = ground (arith, h.ready, h.worker_ready);
    phase = ground (arith, h.ready, h.phase);
  },
  rw h.ready refl,
)

after_failure-Quiet : (e : Value) (s : Starting) → IsReady s → Quiet s (after_failure e s)
unfolding after_failure
after_failure-Quiet e s h = elim (Bool-cases s.closing) [
  | inl closes ↦ (
    record {
      ready = ground (arith, h.ready, closes);
      worker_ready = ground (arith, h.worker_ready, closes);
      phase = ground (arith, closes);
    },
    rw closes refl,
  )
  | inr stays ↦ (
    record {
      ready = ground (arith, h.ready, stays, h.worker_ready);
      worker_ready = ground (arith, h.worker_ready, stays);
      phase = ground (arith, stays, h.worker_ready);
    },
    rw (stays, h.worker_ready) refl,
  )
]

resume-Quiet :
    (phase : Phase) (e : Event) (s : Starting)
    → is_waiting phase ≡ false
    → IsReady s
    → Quiet s (resume phase e s)
resume-Quiet awaits_ready e s later h = absurd (ground (arith, later))
resume-Quiet awaits_run (run_rejected e) s later h = after_failure-Quiet e s h
resume-Quiet awaits_run run_fulfilled s later h =
    (record { ready = h.ready; worker_ready = h.worker_ready; phase = refl }, refl)
resume-Quiet awaits_run (resource_errors e) s later h = (h, refl)
resume-Quiet awaits_run (ready_rejected e) s later h = (h, refl)
resume-Quiet awaits_run resource_ready s later h = (h, refl)
resume-Quiet awaits_run resource_closed s later h = (h, refl)
resume-Quiet awaits_run ready_fulfilled s later h = (h, refl)
resume-Quiet awaits_run close_begins s later h = (h, refl)
resume-Quiet ended e s later h = (h, refl)

step-Quiet : (s : Starting) (e : Event) → IsReady s → Quiet s (step_postgres s e)
unfolding step_postgres
step-Quiet s (resource_errors e) h = on_error-Quiet e s h
step-Quiet s resource_ready h = (h, refl)
step-Quiet s resource_closed h =
    (record { ready = h.ready; worker_ready = h.worker_ready; phase = h.phase }, refl)
step-Quiet s close_begins h =
    (record { ready = h.ready; worker_ready = h.worker_ready; phase = h.phase }, refl)
step-Quiet s (ready_rejected e) h = resume-Quiet s.phase (ready_rejected e) s h.phase h
step-Quiet s (run_rejected e) h = resume-Quiet s.phase (run_rejected e) s h.phase h
step-Quiet s ready_fulfilled h = resume-Quiet s.phase ready_fulfilled s h.phase h
step-Quiet s run_fulfilled h = resume-Quiet s.phase run_fulfilled s h.phase h

run-Quiet : (s : Starting) (es : List Event) → IsReady s → Quiet s (run_postgres s es)
unfolding run_postgres
run-Quiet s [] h = (h, refl)
run-Quiet s (e ∷ es) h =
    let (ready, same) = step-Quiet s e h in
    let (last, all_same) = run-Quiet (step_postgres s e) es ready in (last, all_same ∙ same)

after_ready-IsReady : (s : Starting) → IsPending s → IsReady (after_ready s)
unfolding after_ready
after_ready-IsReady s h = record {
  ready = ground (arith, h.closing);
  worker_ready = ground (arith, h.closing);
  phase = ground (arith, h.closing);
}

resume-IsReady :
    (s : Starting) (e : Event) (es : List Event)
    → IsPending s
    → IsReady (run_postgres (resume awaits_ready e s) es)
    → IsReady (run_postgres (resume s.phase e s) es)
resume-IsReady s e es h ready =
    subst (λ p. IsReady (run_postgres (resume p e s) es)) (sym h.phase) ready

run-IsReady :
    (s : Starting) (es : List Event)
    → IsPending s
    → becomes_ready es ≡ true
    → IsReady (run_postgres s es)
unfolding run_postgres becomes_ready step_postgres
run-IsReady s [] h ready = absurd (ground (arith, ready))
run-IsReady s (resource_errors e ∷ es) h ready =
    run-IsReady (on_error true e s) es (on_error-IsPending e s h) ready
run-IsReady s (resource_ready ∷ es) h ready = run-IsReady s es h ready
run-IsReady s (resource_closed ∷ es) h ready =
    run-IsReady _ es (record { phase = h.phase; closing = h.closing; runs = h.runs }) ready
run-IsReady s (close_begins ∷ es) h ready = absurd (ground (arith, ready))
run-IsReady s (ready_rejected e ∷ es) h ready = absurd (ground (arith, ready))
run-IsReady s (run_rejected e ∷ es) h ready = resume-IsReady s _ es h (run-IsReady s es h ready)
run-IsReady s (run_fulfilled ∷ es) h ready = resume-IsReady s _ es h (run-IsReady s es h ready)
run-IsReady s (ready_fulfilled ∷ es) h ready =
    resume-IsReady s _ es h (run-Quiet (after_ready s) es (after_ready-IsReady s h)).0

run_postgres-append :
    (s : Starting) (es fs : List Event)
    → run_postgres s (es ++ fs) ≡ run_postgres (run_postgres s es) fs
unfolding run_postgres
run_postgres-append s [] fs = refl
run_postgres-append s (e ∷ es) fs = run_postgres-append (step_postgres s e) es fs

-- On PostgreSQL, once the worker of a run node has become ready, nothing that happens afterwards is reported to the
-- configuration node as a failure to start.
pub run_postgres-told_owner :
    (es fs : List Event)
    → becomes_ready es ≡ true
    → (run_postgres started (es ++ fs)).told_owner ≡ (run_postgres started es).told_owner
run_postgres-told_owner es fs ready =
    let was_ready =
      run-IsReady started es (record { phase = refl; closing = refl; runs = refl }) ready in
    ap (λ s. s.told_owner) (run_postgres-append started es fs)
    ∙ (run-Quiet (run_postgres started es) fs was_ready).1
