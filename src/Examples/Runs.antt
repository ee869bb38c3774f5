-- ===== src/Examples/Runs.antt =====
-- A computer on which every process succeeds, and Redis answers PONG after one second.
use node_red_contrib_bull.Prelude.{
  ◌+◌, ◌≤◌, ◌≡◌, refl, true, false, Bool, [], ◌∷◌, none, some, arith, leb, le→leb, subst,
  if◌then◌else◌,
}
use node_red_contrib_bull.Js.Text.{includes}
use node_red_contrib_bull.Js.Value.{Result, ok, err}
use node_red_contrib_bull.Scripts.Shell.{
  Command, Exit, Machine, System, Outcome, plain_docker, checked, run, docker_capture,
  resolve_docker_command,
}
use node_red_contrib_bull.Scripts.Waiting.{Probed, Check, is_up, wait_until}
use node_red_contrib_bull.Scripts.Waiting.Deadline.{
  TakesAtMost, Preserves, Ended, wait_until-Ended, wait_until_succeeds,
}
use node_red_contrib_bull.Scripts.Probes.{probe, redis_cli, on_stdout, wait_for_postgres}
use node_red_contrib_bull.Scripts.Probes.Successes.{
  IsTimely, Waited, probe-TakesAtMost, wait_for_postgres-Waited,
}
use node_red_contrib_bull.Scripts.Runner.{main}
use node_red_contrib_bull.Scripts.Runner.Cleanup.{leaves_up, IsDown, main-IsDown}

abbrev answer : Machine → Command → Exit
answer m c = record {
  error = none;
  status = some 0;
  stdout = if leb 1000 m.now then "PONG" else "LOADING";
  stderr = "";
  took = 10;
}

abbrev computer : System
computer = record {
  spawn = answer;
  path_join = λ parts. "compose.yml";
  variable = λ name. none;
  exec_path = "node";
}

abbrev at_start : Machine
at_start = record { now = 7; log = [] }

computer-IsTimely : IsTimely computer 10
unfolding IsTimely
computer-IsTimely m c = omega arith

abbrev ping : Check Unit
ping =
    probe computer plain_docker "single-noauth" (redis_cli computer "redis" ("PING" ∷ []))
      (on_stdout computer (λ out. includes out "PONG"))

ping-TakesAtMost : TakesAtMost 10 ping
ping-TakesAtMost = probe-TakesAtMost computer plain_docker "single-noauth" _ _ 10 computer-IsTimely

-- The clock has not gone back since the start.
abbrev Started : Unit {0} → Machine → Type 0
Started s m = 7 ≤ m.now

ping-Preserves : Preserves Started ping
unfolding Preserves TakesAtMost
ping-Preserves s s' m p i same down = omega (arith, ping-TakesAtMost s m)

wait_until-Ended_example :
    (o : Outcome Unit) × (wait_until "single-noauth Redis" ping tt 30000 at_start ≡ some o)
    × (o.machine.now ≤ at_start.now + 30000 + 10 + 500)
    × Ended Started "single-noauth Redis" ping (at_start.now + 30000) o
wait_until-Ended_example =
    wait_until-Ended Started "single-noauth Redis" ping tt 30000 10 at_start ping-TakesAtMost
      ping-Preserves (omega arith)

ping_answers : (s : Unit) (m : Machine) → (a : Unit × Probed) × ((ping s m).result ≡ ok a)
unfolding probe docker_capture run checked
ping_answers s m = (_, refl)

-- Whether a check found its store up.
abbrev found_up : Result (Unit {0} × Probed) → Bool
found_up (ok a) = is_up a.1
found_up (err e) = false

ping_ready :
    (s s' : Unit) (m : Machine) (p : Probed)
    → 1000 ≤ m.now
    → (ping s m).result ≡ ok (s', p)
    → is_up p ≡ true
unfolding probe docker_capture run checked includes
ping_ready s s' m p late same =
    let here : found_up (ping s m).result ≡ true = rw (le→leb 1000 m.now late) refl in
    subst (λ r. found_up r ≡ true) same here

wait_until_succeeds_example :
    (o : Outcome Unit) × (wait_until "single-noauth Redis" ping tt 30000 at_start ≡ some o)
    × (o.result ≡ ok tt)
wait_until_succeeds_example =
    wait_until_succeeds "single-noauth Redis" ping tt 30000 10 1000 at_start ping-TakesAtMost
      ping_answers ping_ready (omega arith) (omega arith)

wait_for_postgres-Waited_example :
    (o : Outcome Unit) × (wait_for_postgres computer "postgres-tls" plain_docker at_start ≡ some o)
    × (o.machine.now ≤ at_start.now + 10 + 120500)
    × Waited computer plain_docker "postgres-tls" o.result o.machine.log
wait_for_postgres-Waited_example =
    wait_for_postgres-Waited computer plain_docker "postgres-tls" 10 at_start computer-IsTimely

none_up : IsDown computer (resolve_docker_command computer at_start).0 "single-tls" at_start.log
unfolding IsDown leaves_up
none_up = refl

main-IsDown_example :
    (o : Outcome Unit) × (main computer at_start ≡ some o)
    × IsDown computer (resolve_docker_command computer at_start).0 "single-tls" o.machine.log
main-IsDown_example = main-IsDown computer 10 "single-tls" at_start computer-IsTimely none_up
