-- ===== src/Scripts/Probes/Successes.antt =====
-- `waitForPostgres` of scripts/run-deployment-tests.js: it goes on only after two successes in a row.
use node_red_contrib_bull.Prelude.{
  ℕ, suc, ◌+◌, ◌≤◌, String, ◌≡◌, refl, Bool, true, false, List, ◌∷◌, Option, none, some, arith, inl,
  inr, Bool-cases, ◌⊎◌, ◌||◌, subst, sym, ap, ◌∙◌, ◌<>◌,
}
use node_red_contrib_bull.Js.Value.{Value, Result, ok, err}
use node_red_contrib_bull.Scripts.Shell.{
  Command, Exit, Ran, Machine, System, Outcome, Docker, succeeded, docker_call, compose_args,
  docker_capture, run, checked,
}
use node_red_contrib_bull.Scripts.Waiting.{Probed, is_up}
use node_red_contrib_bull.Scripts.Waiting.Deadline.{
  TakesAtMost, Preserves, Ended, up, threw, late, wait_until-Ended,
}
use node_red_contrib_bull.Scripts.Probes.{
  with_ready, count_successes, probe, pg_isready, wait_for_postgres,
}

-- Every process ends within the limit.
unfoldable pub IsTimely : System → ℕ → Type 0
IsTimely sys limit = (m : Machine) (c : Command) → (sys.spawn m c).took ≤ limit

or_true : (b : Bool) → (b || true) ≡ true
or_true true = refl
or_true false = refl

value_or : {A : Type 0} → A → Result A → A
value_or a (ok b) = b
value_or a (err e) = a

ok_inj : {A : Type 0} (a b : A) → ok a ≡ ok b → a ≡ b
unfolding value_or
ok_inj a b same = ap (value_or a) same

module _ (sys : System) (d : Docker) (name : String) where
  -- The command of a probe.
  abbrev pub ready_command : Command
  ready_command = docker_call d (compose_args sys name pg_isready) true

  -- A process that ran the probe with success.
  pub IsSuccess : Ran → Type 0
  IsSuccess r = (r.command ≡ ready_command) × (succeeded r.exit.status ≡ true)

  -- The count of successes is borne out by the last process.
  data Counts : ℕ → List Ran → Type 0 where
    uncounted : {log : List Ran} → Counts 0 log
    counted : (n : ℕ) (r : Ran) (log : List Ran) → IsSuccess r → Counts (suc n) (r ∷ log)

  -- Waiting returns only after two successful probes, which are the last processes that ran.
  pub data Waited : Result {0} Unit → List Ran → Type 0 where
    twice : (a b : Ran) (log : List Ran) → IsSuccess a → IsSuccess b → Waited (ok tt) (b ∷ a ∷ log)
    refused : (e : Value) (log : List Ran) → Waited (err e) log

  pub probe-TakesAtMost :
      {S : Type 0} (args : List String) (ready : S → Exit → S × Bool) (limit : ℕ)
      → IsTimely sys limit
      → TakesAtMost limit (probe sys d name args ready)
  unfolding TakesAtMost IsTimely probe docker_capture run
  probe-TakesAtMost args ready limit timely s m =
      let short = timely m (docker_call d (compose_args sys name args) true) in
      (omega arith, omega (arith, short))

  -- What a probe makes of the result of a process: it throws, or its count goes by the status.
  with_checked :
      (n : ℕ) (c : Command) (exit : Exit) (e : Option String)
      → ((x : Value) × (with_ready (count_successes n) (checked c true exit e) ≡ err x))
        ⊎ (with_ready (count_successes n) (checked c true exit e)
            ≡ ok (
              (count_successes n exit).0,
              record { exit = exit; ready = (count_successes n exit).1 },
            ))
  unfolding checked
  with_checked n c exit (some message) = inl (_, refl)
  with_checked n c exit none = inr (rw (or_true (succeeded exit.status)) refl)

  -- A probe that does not throw gives its count and its status.
  probe_ok :
      (n n' : ℕ) (m : Machine) (p : Probed)
      → (probe sys d name pg_isready count_successes n m).result ≡ ok (n', p)
      → ((count_successes n (sys.spawn m ready_command)).0 ≡ n')
        × (record {
          exit = sys.spawn m ready_command;
          ready = (count_successes n (sys.spawn m ready_command)).1;
        }
            ≡ p)
  unfolding probe docker_capture run
  probe_ok n n' m p same =
      let exit = sys.spawn m ready_command in
      elim (with_checked n ready_command exit exit.error) [
        | inl (e, thrown) ↦ absurd (ground (arith, thrown, same))
        | inr answered ↦
            let both = ok_inj _ _ (sym answered ∙ same) in (ap (λ z. z.0) both, ap (λ z. z.1) both)
      ]

  -- The count after a probe is borne out by it.
  count-Counts :
      (n : ℕ) (exit : Exit) (log : List Ran)
      → Counts (count_successes n exit).0 (record { command = ready_command; exit = exit } ∷ log)
  unfolding IsSuccess
  count-Counts n exit log = elim (Bool-cases (succeeded exit.status)) [
    | inl fine ↦ rw fine (counted n _ log (refl, fine))
    | inr bad ↦ rw bad uncounted
  ]

  kept : Preserves (λ n m. Counts n m.log) (probe sys d name pg_isready count_successes)
  unfolding Preserves probe docker_capture run
  kept n n' m p c same not_ready =
      let (count, _) = probe_ok n n' m p same in
      subst
        (λ k.
          Counts k (record { command = ready_command; exit = sys.spawn m ready_command } ∷ m.log))
        count (count-Counts n (sys.spawn m ready_command) m.log)

  -- A probe that finds the store up is the second success in a row.
  second_success :
      (n : ℕ) (exit : Exit) (log : List Ran)
      → Counts n log
      → is_up (record { exit = exit; ready = (count_successes n exit).1 }) ≡ true
      → Waited (ok tt) (record { command = ready_command; exit = exit } ∷ log)
  unfolding IsSuccess
  second_success _ exit log uncounted ready = absurd (ground arith)
  second_success _ exit _ (counted n r log success) ready =
      let fine : succeeded exit.status ≡ true = ground arith in twice r _ log success (refl, fine)

  Ended-Waited :
      (label : String) (deadline : ℕ) (o : Outcome Unit)
      → Ended (λ n m. Counts n m.log) label (probe sys d name pg_isready count_successes) deadline o
      → Waited o.result o.machine.log
  unfolding probe docker_capture run
  Ended-Waited label deadline _ (up n n' m p c before same ready) =
      let (_, seen) = probe_ok n n' m p same in
      second_success n (sys.spawn m ready_command) m.log c
        (subst (λ x. is_up x ≡ true) (sym seen) ready)
  Ended-Waited label deadline _ (threw n m e c before failed) = refused e _
  Ended-Waited label deadline _ (late n m last_output c passed) = refused _ _

-- If every process ends within a limit of time, waiting for a PostgreSQL store ends, at the latest the limit and
-- 120.5 seconds after it began; and it returns without an error only if the last two processes that ran are
-- probes of that store that both succeeded.
pub wait_for_postgres-Waited :
    (sys : System) (d : Docker) (name : String) (limit : ℕ) (m : Machine)
    → IsTimely sys limit
    → (o : Outcome Unit) × (wait_for_postgres sys name d m ≡ some o)
      × (o.machine.now ≤ m.now + limit + 120500)
      × Waited sys d name o.result o.machine.log
unfolding wait_for_postgres
wait_for_postgres-Waited sys d name limit m timely =
    let check = probe sys d name pg_isready count_successes in
    let (o, same, soon, ended) =
      wait_until-Ended (λ n m. Counts sys d name n m.log) (name <> " PostgreSQL") check 0 120000
        limit m (probe-TakesAtMost sys d name pg_isready count_successes limit timely)
        (kept sys d name) uncounted in
    (o, same, omega arith, Ended-Waited sys d name _ _ o ended)
