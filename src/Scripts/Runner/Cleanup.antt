-- ===== src/Scripts/Runner/Cleanup.antt =====
-- scripts/run-deployment-tests.js leaves no deployment up.
use node_red_contrib_bull.Prelude.{
  ℕ, String, ◌≡◌, refl, Bool, true, false, List, [], ◌∷◌, none, some, All, inl, inr, subst, sym,
  str_eq, str_eq_iff, if◌then◌else◌, Bool-cases, ◌⊎◌,
}
use node_red_contrib_bull.Scripts.Shell.{
  Command, Exit, Ran, Machine, System, Outcome, Docker, docker_call, compose_args, can_run,
  both_run, resolve_docker_command, quiet, run, plain_docker, sudo_docker,
}
use node_red_contrib_bull.Scripts.Probes.Successes.{IsTimely}
use node_red_contrib_bull.Scripts.Environments.{Deployment, deployments, memory_db_env}
use node_red_contrib_bull.Scripts.Runner.{
  down_args, run_deployment, run_deployments, run_memory_db, main, run_external_integration,
}
use node_red_contrib_bull.Scripts.Waiting.Deadline.{Result-cases}
use node_red_contrib_bull.Scripts.Runner.Keeping.{
  Admits, AdmitsCall, Keeps, IsStanding, continue-Keeps, deployments-IsStanding,
  run_deployment-Keeps,
}
use node_red_contrib_bull.Scripts.Runner.Calls.{
  starts_with, is_call, call_own, call_other, call_tests,
}

module _ (sys : System) (d : Docker) where
  -- After these processes, the last first, a deployment was started and not taken down since.
  unfoldable pub leaves_up : String → List Ran → Bool
  leaves_up name [] = false
  leaves_up name (r ∷ log) =
      let before = leaves_up name log in
      if is_call sys d name "down" r.command
      then false
      else if is_call sys d name "up" r.command
      then true
      else before

  -- No process of these has left the deployment up.
  unfoldable pub IsDown : String → List Ran → Type 0
  IsDown name log = leaves_up name log ≡ false

  -- Only a call of `up` can leave a deployment up.
  IsDown-Admits :
      (name : String) (c : Command) → is_call sys d name "up" c ≡ false → Admits (IsDown name) c
  unfolding Admits IsDown leaves_up
  IsDown-Admits name c other exit log down = elim (Bool-cases (is_call sys d name "down" c)) [
    | inl here ↦ rw here refl
    | inr elsewhere ↦ rw (elsewhere, other) down
  ]

  down_args-IsDown :
      (name : String) (exit : Exit) (log : List Ran)
      → IsDown name
          (record { command = docker_call d (down_args sys name) false; exit = exit } ∷ log)
  unfolding IsDown leaves_up
  down_args-IsDown name exit log =
      rw (call_own sys d name "down" ("-v" ∷ "--remove-orphans" ∷ []) false) refl

  module _ (limit : ℕ) (timely : IsTimely sys limit) where
    run_deployment-IsDown :
        (name : String) (deployment : Deployment) (m : Machine)
        → IsStanding sys d limit timely deployment
        → IsDown name m.log
        → Keeps (IsDown name) (run_deployment sys d deployment m)
    unfolding AdmitsCall Admits
    run_deployment-IsDown name deployment m standing down =
        elim (Bool-cases (str_eq name deployment.name)) [
          | inl same ↦
              subst (λ n. Keeps (IsDown n) (run_deployment sys d deployment m))
                (sym ((str_eq_iff _ _).0 same))
                (run_deployment-Keeps sys d limit timely (λ _. Unit) (IsDown deployment.name)
                  deployment m standing (λ exit log _. down_args-IsDown deployment.name exit log)
                  (λ _ _. tt) (λ _ _ _. tt) (λ _ _ _ _ _. tt) (λ _ _ _. tt) tt)
          | inr differ ↦
              let foreign : (args : List String) (captured : Bool) (word : String)
                  → Admits (IsDown name)
                      (docker_call d (compose_args sys deployment.name (word ∷ args)) captured) =
                λ args captured word.
                  IsDown-Admits name _
                    (call_other sys d name deployment.name "up" word args captured differ) in
              run_deployment-Keeps sys d limit timely (IsDown name) (IsDown name) deployment m
                standing (foreign _ false "down") (λ _ i. i) (foreign _ false "up")
                (λ args captured. foreign args captured "exec")
                (IsDown-Admits name _ (call_tests sys d name "up" deployment.env)) down
        ]

    run_deployments-IsDown :
        (name : String) (ds : List Deployment) (m : Machine)
        → All (IsStanding sys d limit timely) ds
        → IsDown name m.log
        → Keeps (IsDown name) (run_deployments sys d ds m)
    unfolding run_deployments Keeps
    run_deployments-IsDown name [] m standing down = (_, refl, down)
    run_deployments-IsDown name (x ∷ ds) m (first, rest) down =
        continue-Keeps (IsDown name) (IsDown name) _ _ (run_deployment-IsDown name x m first down)
          (λ _ m' i. run_deployments-IsDown name ds m' rest i) (λ _ i. i)

    run_memory_db-IsDown :
        (name : String) (m : Machine)
        → IsDown name m.log
        → Keeps (IsDown name) (run_memory_db sys m)
    unfolding Keeps run_external_integration run Admits
    run_memory_db-IsDown name m down = elim (Result-cases (memory_db_env sys)) [
      | inr (e, failed) ↦ rw (failed, run_memory_db) (_, refl, down)
      | inl (none, skipped) ↦ rw (skipped, run_memory_db) (_, refl, down)
      | inl (some env, given) ↦
          rw (given, run_memory_db)
            (continue-Keeps (IsDown name) (IsDown name) _ _
              (_, refl, IsDown-Admits name _ (call_tests sys d name "up" env) _ m.log down)
              (λ _ m' i. (_, refl, i)) (λ _ i. i))
    ]

  -- The tests for Docker are no calls of `docker compose up`.
  can_run-IsDown :
      (name program : String) (args : List String) (m : Machine)
      → is_call sys d name "up" (quiet program args) ≡ false
      → IsDown name m.log
      → IsDown name (can_run sys program args m).1.log
  unfolding can_run Admits
  can_run-IsDown name program args m other down =
      IsDown-Admits name (quiet program args) other _ m.log down

  both_run-IsDown :
      (name program : String) (first second : List String) (m : Machine)
      → is_call sys d name "up" (quiet program first) ≡ false
      → is_call sys d name "up" (quiet program second) ≡ false
      → IsDown name m.log
      → IsDown name (both_run sys program first second m).1.log
  both_run-IsDown name program first second m one two down =
      let begun = can_run-IsDown name program first m one down in
      elim (Bool-cases (can_run sys program first m).0) [
        | inl fine ↦
            rw fine (can_run-IsDown name program second (can_run sys program first m).1 two begun)
        | inr failed ↦ rw failed begun
      ]

-- The ways to call Docker that `resolveDockerCommand` can return.
resolve_cases :
    (sys : System) (m : Machine)
    → ((resolve_docker_command sys m).0 ≡ plain_docker)
      ⊎ ((resolve_docker_command sys m).0 ≡ sudo_docker)
unfolding resolve_docker_command
resolve_cases sys m =
    let plain = both_run sys "docker" ("info" ∷ []) ("compose" ∷ "version" ∷ []) m in
    let sudo =
      both_run sys "sudo" ("-n" ∷ "docker" ∷ "info" ∷ [])
        ("-n" ∷ "docker" ∷ "compose" ∷ "version" ∷ []) plain.1 in
    elim (Bool-cases plain.0) [
      | inl here ↦ inl (rw here refl)
      | inr absent ↦ elim (Bool-cases sudo.0) [
        | inl raised ↦ inr (rw (absent, raised) refl)
        | inr neither ↦ inl (rw (absent, neither) refl)
      ]
    ]

-- The commands that test for Docker are no calls of `docker compose up`.
AreForeign : System → String → Docker → Type 0
AreForeign sys name d =
    (is_call sys d name "up" (quiet "docker" ("info" ∷ [])) ≡ false)
    × (is_call sys d name "up" (quiet "docker" ("compose" ∷ "version" ∷ [])) ≡ false)
    × (is_call sys d name "up" (quiet "sudo" ("-n" ∷ "docker" ∷ "info" ∷ [])) ≡ false)
    × (is_call sys d name "up" (quiet "sudo" ("-n" ∷ "docker" ∷ "compose" ∷ "version" ∷ []))
        ≡ false)

tests-AreForeign :
    (sys : System) (name : String) (d : Docker)
    → (d ≡ plain_docker) ⊎ (d ≡ sudo_docker)
    → AreForeign sys name d
unfolding AreForeign is_call compose_args starts_with
tests-AreForeign sys name d (inl same) =
    subst (AreForeign sys name) (sym same) (refl, refl, refl, refl)
tests-AreForeign sys name d (inr same) =
    subst (AreForeign sys name) (sym same) (refl, refl, refl, refl)

resolve-IsDown :
    (sys : System) (d : Docker) (name : String) (m : Machine)
    → (d ≡ plain_docker) ⊎ (d ≡ sudo_docker)
    → IsDown sys d name m.log
    → IsDown sys d name (resolve_docker_command sys m).1.log
unfolding resolve_docker_command AreForeign
resolve-IsDown sys d name m either down =
    let (info, version, sudo_info, sudo_version) = tests-AreForeign sys name d either in
    let plain = both_run sys "docker" ("info" ∷ []) ("compose" ∷ "version" ∷ []) m in
    let begun = both_run-IsDown sys d name "docker" _ _ m info version down in
    elim (Bool-cases plain.0) [
      | inl here ↦ rw here begun
      | inr absent ↦
          rw absent (both_run-IsDown sys d name "sudo" _ _ plain.1 sudo_info sudo_version begun)
    ]

-- If every process ends within a limit of time, the runner ends; and a deployment, of any name, that was not
-- up before the run, or was taken down, is not up after it: whatever failed, and whenever, each `up` of the
-- runner is followed by a `down` for the same deployment.
pub main-IsDown :
    (sys : System) (limit : ℕ) (name : String) (m : Machine)
    → IsTimely sys limit
    → IsDown sys (resolve_docker_command sys m).0 name m.log
    → (o : Outcome Unit) × (main sys m ≡ some o)
      × IsDown sys (resolve_docker_command sys m).0 name o.machine.log
unfolding main Keeps
main-IsDown sys limit name m timely down =
    let d = (resolve_docker_command sys m).0 in
    let m' = (resolve_docker_command sys m).1 in
    continue-Keeps (IsDown sys d name) (IsDown sys d name) (λ _. run_memory_db sys) _
      (run_deployments-IsDown sys d limit timely name (deployments sys) m'
        (deployments-IsStanding sys d limit timely)
        (resolve-IsDown sys d name m (resolve_cases sys m) down))
      (λ _ m2 i. run_memory_db-IsDown sys d limit timely name m2 i) (λ _ i. i)
