-- ===== src/Scripts/Runner/Keeping.antt =====
-- What the steps of scripts/run-deployment-tests.js keep of the list of processes that ran, and that they end.
use node_red_contrib_bull.Prelude.{
  ℕ, String, ◌≡◌, refl, Bool, true, false, List, ◌∷◌, Option, some, All, inl, inr, subst, sym,
}
use node_red_contrib_bull.Js.Value.{Result, err}
use node_red_contrib_bull.Scripts.Shell.{
  Command, Exit, Ran, Machine, System, Outcome, Docker, docker, docker_call, docker_capture, run,
  compose_args,
}
use node_red_contrib_bull.Scripts.Waiting.{Check, wait_until}
use node_red_contrib_bull.Scripts.Waiting.Deadline.{
  Result-cases, Preserves, Ended, up, threw, late, wait_until-Ended,
}
use node_red_contrib_bull.Scripts.Probes.{
  probe, wait_for_single_noauth, wait_for_single_auth, wait_for_single_tls, wait_for_cluster_auth,
  wait_for_cluster_tls, wait_for_sentinel_auth, wait_for_sentinel_tls, wait_for_postgres,
}
use node_red_contrib_bull.Scripts.Probes.Successes.{IsTimely, probe-TakesAtMost}
use node_red_contrib_bull.Scripts.Environments.{Deployment, deployments}
use node_red_contrib_bull.Scripts.Runner.{
  Task, continue, after_finally, finally, run_external_integration, tests_command, tear_down,
  down_args, up_args, try_deployment, run_deployment,
}

-- A process that runs this command, whatever comes of it, keeps a property of the processes that ran.
unfoldable pub Admits : (List Ran → Type 0) → Command → Type 0
Admits I c = (exit : Exit) (log : List Ran) → I log → I (record { command = c; exit = exit } ∷ log)

-- A task returns, and the property holds of the processes that ran.
unfoldable pub Keeps : {A : Type 0} → (List Ran → Type 0) → Option (Outcome A) → Type 0
Keeps {A} I r = (o : Outcome A) × (r ≡ some o) × I o.machine.log

pub continue-Keeps :
    {A B : Type 0} (I J : List Ran → Type 0) (next : A → Task B) (r : Option (Outcome A))
    → Keeps I r
    → ((a : A) (m : Machine) → I m.log → Keeps J (next a m))
    → ((log : List Ran) → I log → J log)
    → Keeps J (continue next r)
unfolding Keeps continue
continue-Keeps I J next r (o, same, i) go stop = elim (Result-cases o.result) [
  | inl (a, fine) ↦ rw (same, fine) (go a o.machine i)
  | inr (e, failed) ↦
      rw (same, failed) (record { result = err e; machine = o.machine }, refl, stop o.machine.log i)
]

after_finally-machine :
    {A B : Type 0} (before : Result A) (o : Outcome B)
    → (after_finally before o).machine ≡ o.machine
after_finally-machine before o = elim (Result-cases o.result) [
  | inl (b, fine) ↦ rw fine refl
  | inr (e, failed) ↦ rw failed refl
]

finally-Keeps :
    {A B : Type 0} (I J : List Ran → Type 0) (cleanup : Machine → Outcome B)
    (r : Option (Outcome A))
    → Keeps I r
    → ((m : Machine) → I m.log → J (cleanup m).machine.log)
    → Keeps J (finally cleanup r)
unfolding Keeps finally
finally-Keeps I J cleanup r (o, same, i) clean =
    let ended = after_finally-machine o.result (cleanup o.machine) in
    rw same (
      after_finally o.result (cleanup o.machine),
      refl,
      subst (λ m. J m.log) (sym ended) (clean o.machine i),
    )

module _ (sys : System) (d : Docker) (limit : ℕ) (timely : IsTimely sys limit) where
  -- A property admits the calls of `docker compose` for a deployment that start with a word.
  unfoldable pub AdmitsCall : (List Ran → Type 0) → String → String → Type 0
  AdmitsCall I name word =
      (args : List String) (captured : Bool)
      → Admits I (docker_call d (compose_args sys name (word ∷ args)) captured)

  Ended-keeps :
      {S : Type 0} (I : List Ran → Type 0) (label : String) (check : Check S) (deadline : ℕ)
      (o : Outcome Unit)
      → ((s : S) (m : Machine) → I m.log → I (check s m).machine.log)
      → Ended (λ _ m. I m.log) label check deadline o
      → I o.machine.log
  Ended-keeps I label check deadline _ kept (up s s' m p i before same ready) = kept s m i
  Ended-keeps I label check deadline _ kept (threw s m e i before failed) = kept s m i
  Ended-keeps I label check deadline _ kept (late s m last_output i passed) = i

  -- Waiting for a store by a probe returns, and keeps what the probe's command keeps.
  probe-Keeps :
      {S : Type 0} (I : List Ran → Type 0) (label name : String) (args : List String)
      (ready : S → Exit → S × Bool) (s : S) (timeout_ms : ℕ) (m : Machine)
      → Admits I (docker_call d (compose_args sys name args) true)
      → I m.log
      → Keeps I (wait_until label (probe sys d name args ready) s timeout_ms m)
  unfolding Keeps probe docker_capture run Admits Preserves
  probe-Keeps {S = S} I label name args ready s timeout_ms m admits i =
      let check = probe sys d name args ready in
      let one : (s : S) (m : Machine) → I m.log → I (check s m).machine.log =
        λ s m i. admits _ m.log i in
      let (o, same, soon, ended) =
        wait_until-Ended (λ _ m. I m.log) label check s timeout_ms limit m
          (probe-TakesAtMost sys d name args ready limit timely) (λ s s' m p i _ _. one s m i) i in
      (o, same, Ended-keeps I label check _ o one ended)

  -- Waiting for the store of a deployment returns, and keeps what its `exec` calls keep.
  pub IsStanding : Deployment → Type 1
  IsStanding deployment =
      (I : List Ran → Type 0) (m : Machine)
      → AdmitsCall I deployment.name "exec"
      → I m.log
      → Keeps I (deployment.wait d m)

  pub deployments-IsStanding : All IsStanding (deployments sys)
  unfolding deployments IsStanding AdmitsCall wait_for_single_noauth wait_for_single_auth
      wait_for_single_tls wait_for_cluster_auth wait_for_cluster_tls wait_for_sentinel_auth
      wait_for_sentinel_tls wait_for_postgres
  deployments-IsStanding = (
    λ I m a i. probe-Keeps I _ _ _ _ tt 30000 m (a _ true) i,
    (
      λ I m a i. probe-Keeps I _ _ _ _ tt 30000 m (a _ true) i,
      (
        λ I m a i. probe-Keeps I _ _ _ _ tt 30000 m (a _ true) i,
        (
          λ I m a i. probe-Keeps I _ _ _ _ tt 45000 m (a _ true) i,
          (
            λ I m a i. probe-Keeps I _ _ _ _ tt 45000 m (a _ true) i,
            (
              λ I m a i. probe-Keeps I _ _ _ _ tt 45000 m (a _ true) i,
              (
                λ I m a i. probe-Keeps I _ _ _ _ tt 45000 m (a _ true) i,
                (
                  λ I m a i. probe-Keeps I _ _ _ _ 0 120000 m (a _ true) i,
                  (λ I m a i. probe-Keeps I _ _ _ _ 0 120000 m (a _ true) i, tt),
                ),
              ),
            ),
          ),
        ),
      ),
    ),
  )

  -- A deployment's run returns. What holds then is what the last call, which takes it down, brings about.
  pub run_deployment-Keeps :
      (I J : List Ran → Type 0) (deployment : Deployment) (m : Machine)
      → IsStanding deployment
      → ((exit : Exit) (log : List Ran)
          → I log
          → J (
              record { command = docker_call d (down_args sys deployment.name) false; exit = exit }
              ∷ log))
      → ((log : List Ran) → J log → I log)
      → Admits I (docker_call d (up_args sys deployment) false)
      → AdmitsCall I deployment.name "exec"
      → Admits I (tests_command sys deployment.env)
      → I m.log
      → Keeps J (run_deployment sys d deployment m)
  unfolding run_deployment try_deployment tear_down run_external_integration docker run Keeps
      IsStanding Admits
  run_deployment-Keeps I J deployment m standing down weaken start probes tests i =
      continue-Keeps J J _ _ (_, refl, down _ m.log i)
        (λ _ m' j.
          finally-Keeps I J _ _
            (continue-Keeps I I _ _
              (continue-Keeps I I _ _ (_, refl, start _ m'.log (weaken m'.log j))
                (λ _ m2 i2. standing I m2 probes i2) (λ _ i2. i2))
              (λ _ m3 i3. (_, refl, tests _ m3.log i3)) (λ _ i3. i3))
            (λ m4 i4. down _ m4.log i4))
        (λ _ j. j)
