-- ===== src/Scripts/Waiting.antt =====
-- scripts/run-deployment-tests.js: `waitUntil`.
pub mod Deadline
use node_red_contrib_bull.Prelude.{
  ℕ, zero, suc, ◌+◌, ◌/◌, String, ◌<>◌, Bool, true, false, ◌&&◌, Option, none, some, ltb,
  if◌then◌else◌,
}
use node_red_contrib_bull.Js.Text.{trim}
use node_red_contrib_bull.Js.Value.{Result, ok, err, throw}
use node_red_contrib_bull.Scripts.Shell.{Exit, Machine, Outcome, sleep_ms, succeeded}

-- What a check returns: the result of a process, with its property `ready`.
pub record Probed : Type 0 where
  pub exit : Exit
  pub ready : Bool

-- A check, with the variables that it keeps from call to call.
abbrev pub Check : Type 0 → Type 0
Check S = S → Machine → Outcome (S × Probed)

abbrev pub is_up : Probed → Bool
is_up p = succeeded p.exit.status && p.ready

abbrev pub last_output_of : Exit → String
last_output_of exit = trim (exit.stdout <> exit.stderr)

abbrev pub timed_out : String → String → Machine → Outcome Unit
timed_out label last_output m = record {
  result = throw ("Timed out waiting for " <> label <> ": " <> last_output);
  machine = m;
}

-- The rest of a round, after the check; `again` are the rounds that follow.
unfoldable pub after_check :
    {S : Type 0}
    → (String → S → Machine → Option (Outcome Unit))
    → Result (S × Probed)
    → Machine
    → Option (Outcome Unit)
after_check again (err e) m = some (record { result = err e; machine = m })
after_check again (ok (s, p)) m =
    let rest = again (last_output_of p.exit) s (sleep_ms 500 m) in
    if is_up p then some (record { result = ok tt; machine = m }) else rest

-- The `while` loop, and the error after it; `none` means that the fuel ran out.
unfoldable pub wait_loop :
    {S : Type 0} → ℕ → String → Check S → ℕ → String → S → Machine → Option (Outcome Unit)
wait_loop zero label check deadline last_output s m =
    if ltb m.now deadline then none else some (timed_out label last_output m)
wait_loop (suc fuel) label check deadline last_output s m =
    let checked = check s m in
    let round = after_check (wait_loop fuel label check deadline) checked.result checked.machine in
    if ltb m.now deadline then round else some (timed_out label last_output m)

-- Every round but the last sleeps for 500 ms.
unfoldable pub wait_until :
    {S : Type 0} → String → Check S → S → ℕ → Machine → Option (Outcome Unit)
wait_until label check s timeout_ms m =
    wait_loop (suc (timeout_ms / 500)) label check (m.now + timeout_ms) "" s m
