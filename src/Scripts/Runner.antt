-- ===== src/Scripts/Runner.antt =====
-- scripts/run-deployment-tests.js: `runExternalIntegration`, `runDeployment` and `main`. What is written to
-- the console is left out.
pub mod Keeping
pub mod Calls
pub mod Cleanup
use node_red_contrib_bull.Prelude.{
  ℕ, String, Bool, true, false, List, [], ◌∷◌, ◌++◌, Option, none, some, if◌then◌else◌,
}
use node_red_contrib_bull.Js.Value.{str, Fields, end, field, Result, ok, err}
use node_red_contrib_bull.Js.Objects.{spread}
use node_red_contrib_bull.Scripts.Shell.{
  Command, Exit, Machine, System, Outcome, Docker, run, docker, compose_args,
  resolve_docker_command,
}
use node_red_contrib_bull.Scripts.Environments.{Deployment, memory_db_env, deployments}

-- Something that the runner does; `none` means that a loop in it ran out of fuel.
abbrev pub Task : Type 0 → Type 0
Task A = Machine → Option (Outcome A)

-- What follows a task: a value that is thrown skips it.
unfoldable pub continue : {A B : Type 0} → (A → Task B) → Option (Outcome A) → Option (Outcome B)
continue next none = none
continue next (some o) = elim o.result [
  | ok a ↦ next a o.machine
  | err e ↦ some (record { result = err e; machine = o.machine })
]

-- The end of `try { ... } finally { ... }`: what `finally` throws takes the place of what came before.
abbrev pub after_finally : {A B : Type 0} → Result A → Outcome B → Outcome A
after_finally before o = elim o.result [
  | ok b ↦ record { result = before; machine = o.machine }
  | err e ↦ record { result = err e; machine = o.machine }
]

unfoldable pub finally :
    {A B : Type 0} → (Machine → Outcome B) → Option (Outcome A) → Option (Outcome A)
finally cleanup none = none
finally cleanup (some o) = some (after_finally o.result (cleanup o.machine))

module _ (sys : System) where
  abbrev pub tests_command : Fields → Command
  tests_command env = record {
    program = sys.exec_path;
    args = "--test" ∷ "test/integration-deployment.test.js" ∷ [];
    env = spread (field "BULLMQ_EXTERNAL_BACKEND" (str "1") end) env;
    captured = false;
  }

  unfoldable pub run_external_integration : Fields → Machine → Outcome Exit
  run_external_integration env m = run sys (tests_command env) false m

  abbrev pub down_args : String → List String
  down_args name = compose_args sys name ("down" ∷ "-v" ∷ "--remove-orphans" ∷ [])

  abbrev pub up_args : Deployment → List String
  up_args deployment =
      compose_args sys deployment.name
        ("up" ∷ "-d" ∷ (if deployment.build then "--build" ∷ [] else []))

  unfoldable pub tear_down : Docker → Deployment → Machine → Outcome Exit
  tear_down d deployment m = docker sys d (down_args deployment.name) true m

  -- The `try` block.
  unfoldable pub try_deployment : Docker → Deployment → Task Exit
  try_deployment d deployment m =
      continue (λ _. λ m. some (run_external_integration deployment.env m))
        (continue (λ _. deployment.wait d) (some (docker sys d (up_args deployment) false m)))

  unfoldable pub run_deployment : Docker → Deployment → Task Exit
  run_deployment d deployment m =
      continue (λ _. λ m. finally (tear_down d deployment) (try_deployment d deployment m))
        (some (tear_down d deployment m))

  unfoldable pub run_deployments : Docker → List Deployment → Task Unit
  run_deployments d [] m = some (record { result = ok tt; machine = m })
  run_deployments d (deployment ∷ rest) m =
      continue (λ _. run_deployments d rest) (run_deployment d deployment m)

  -- The part of `main` after the deployments.
  abbrev pub run_memory_db : Task Unit
  run_memory_db m = elim (memory_db_env sys) [
    | err e ↦ some (record { result = err e; machine = m })
    | ok none ↦ some (record { result = ok tt; machine = m })
    | ok (some env) ↦
        continue (λ _. λ m. some (record { result = ok tt; machine = m }))
          (some (run_external_integration env m))
  ]

  unfoldable pub main : Task Unit
  main m =
      let (d, m') = resolve_docker_command sys m in
      continue (λ _. run_memory_db) (run_deployments d (deployments sys) m')

-- The status with which the process ends.
abbrev pub exit_status : Outcome Unit → ℕ
exit_status o = elim o.result [ ok _ ↦ 0 | err _ ↦ 1 ]
