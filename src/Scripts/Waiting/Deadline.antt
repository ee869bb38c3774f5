-- ===== src/Scripts/Waiting/Deadline.antt =====
-- `waitUntil` of scripts/run-deployment-tests.js: it ends, when it ends, and what its end means.
use node_red_contrib_bull.Prelude.{
  ℕ, zero, suc, ◌+◌, ◌*◌, ◌/◌, ◌≤◌, ◌<◌, String, ◌≡◌, refl, true, false, Option, some, ltb, arith,
  inl, inr, Bool-cases, ltb→lt, leb, leb→le, ◌⊎◌,
}
use node_red_contrib_bull.Js.Value.{Value, Result, ok, err}
use node_red_contrib_bull.Scripts.Shell.{Machine, Outcome, sleep_ms}
use node_red_contrib_bull.Scripts.Waiting.{
  Probed, Check, is_up, last_output_of, timed_out, after_check, wait_loop, wait_until,
}

pub Result-cases :
    {A : Type 0} (r : Result A) → ((a : A) × (r ≡ ok a)) ⊎ ((e : Value) × (r ≡ err e))
Result-cases (ok a) = inl (a, refl)
Result-cases (err e) = inr (e, refl)

module _ {S : Type 0} where
  -- The clock does not go back in a check, and a check takes no longer than the limit.
  unfoldable pub TakesAtMost : ℕ → Check S → Type 0
  TakesAtMost limit check =
      (s : S) (m : Machine)
      → (m.now ≤ (check s m).machine.now) × ((check s m).machine.now ≤ m.now + limit)

  -- What holds before a check that does not find the store up holds after the sleep that follows it.
  unfoldable pub Preserves : (S → Machine → Type 0) → Check S → Type 0
  Preserves I check =
      (s s' : S) (m : Machine) (p : Probed)
      → I s m
      → (check s m).result ≡ ok (s', p)
      → is_up p ≡ false
      → I s' (sleep_ms 500 (check s m).machine)

  -- How waiting ends: with a check before the deadline that finds the store up, with one that throws, or
  -- with the error after the deadline. `I` holds when the last check starts.
  pub data Ended (I : S → Machine → Type 0) (label : String) (check : Check S) (deadline : ℕ)
      : Outcome Unit → Type 0 where
    up :
        (s s' : S) (m : Machine) (p : Probed)
        → I s m
        → m.now < deadline
        → (check s m).result ≡ ok (s', p)
        → is_up p ≡ true
        → Ended I label check deadline (record { result = ok tt; machine = (check s m).machine })
    threw :
        (s : S) (m : Machine) (e : Value)
        → I s m
        → m.now < deadline
        → (check s m).result ≡ err e
        → Ended I label check deadline (record { result = err e; machine = (check s m).machine })
    late :
        (s : S) (m : Machine) (last_output : String)
        → I s m
        → deadline ≤ m.now
        → Ended I label check deadline (timed_out label last_output m)

  -- The loop returns, within the limit and a sleep after the deadline, and its end is one of the three.
  Ends : (S → Machine → Type 0) → String → Check S → ℕ → ℕ → Option (Outcome Unit) → Type 0
  Ends I label check deadline limit r =
      (o : Outcome Unit) × (r ≡ some o)
      × (o.machine.now ≤ deadline + limit + 500)
      × Ended I label check deadline o

  module _ (I : S → Machine → Type 0) (label : String) (check : Check S) (deadline limit : ℕ)
      (timely : TakesAtMost limit check) (kept : Preserves I check) where
    loop-Ends :
        (fuel : ℕ) (last_output : String) (s : S) (m : Machine)
        → I s m
        → deadline ≤ m.now + 500 * fuel
        → m.now ≤ deadline + limit + 500
        → Ends I label check deadline limit (wait_loop fuel label check deadline last_output s m)
    unfolding Ends wait_loop after_check TakesAtMost Preserves
    loop-Ends zero last_output s m i enough early =
        let is_late : ltb m.now deadline ≡ false = ground (enough, arith) in
        rw is_late (
          timed_out label last_output m,
          refl,
          early,
          late s m last_output i (omega (enough, arith)),
        )
    loop-Ends (suc fuel) last_output s m i enough early = elim (Bool-cases (ltb m.now deadline)) [
      | inr is_late ↦
          rw is_late
            (timed_out label last_output m, refl, early, late s m last_output i (ground arith))
      | inl before ↦
          let less = ltb→lt m.now deadline before in
          elim (Result-cases (check s m).result) [
            | inr (e, failed) ↦
                rw (before, failed)
                  (
                    record { result = err e; machine = (check s m).machine },
                    refl,
                    omega (arith, timely s m),
                    threw s m e i less failed,
                  )
            | inl ((s', p), answered) ↦ elim (Bool-cases (is_up p)) [
              | inl ready ↦
                  rw (before, answered, ready)
                    (
                      record { result = ok tt; machine = (check s m).machine },
                      refl,
                      omega (arith, timely s m),
                      up s s' m p i less answered ready,
                    )
              | inr not_ready ↦
                  rw (before, answered, not_ready)
                    (loop-Ends fuel (last_output_of p.exit) s' (sleep_ms 500 (check s m).machine)
                      (kept s s' m p i answered not_ready) (omega (arith, timely s m))
                      (omega (arith, timely s m)))
            ]
          ]
    ]

  -- Whatever the check does within its limit of time, waiting ends, at the latest one check and one sleep
  -- after the deadline: with a check that started before the deadline and found the store up, with the error of
  -- such a check that throws, or with the error of the timeout, then not before the deadline. A property
  -- that holds at the start, and that the failed checks and the sleeps keep, holds when the last check starts,
  -- or at the timeout.
  pub wait_until-Ended :
      (I : S → Machine → Type 0) (label : String) (check : Check S) (s : S) (timeout_ms limit : ℕ)
      (m : Machine)
      → TakesAtMost limit check
      → Preserves I check
      → I s m
      → (o : Outcome Unit) × (wait_until label check s timeout_ms m ≡ some o)
        × (o.machine.now ≤ m.now + timeout_ms + limit + 500)
        × Ended I label check (m.now + timeout_ms) o
  unfolding wait_until Ends
  wait_until-Ended I label check s timeout_ms limit m timely kept i =
      loop-Ends I label check (m.now + timeout_ms) limit timely kept (suc (timeout_ms / 500)) "" s m
        i (omega arith) (omega arith)

  Ended-result :
      (check : Check S) (deadline : ℕ) (label : String) (o : Outcome Unit)
      → ((s : S) (m : Machine) → (a : S × Probed) × ((check s m).result ≡ ok a))
      → Ended (λ _ k. k.now < deadline) label check deadline o
      → o.result ≡ ok tt
  Ended-result check deadline label _ answers (up s s' m p i before same ready) = refl
  Ended-result check deadline label _ answers (threw s m e i before failed) =
      let (a, same) = answers s m in ground (arith, same, failed)
  Ended-result check deadline label _ answers (late s m last_output i passed) = absurd (omega arith)

  -- If no check throws or takes longer than a limit, and each check that starts at `start` or later finds the
  -- store up, and the time-out is not zero and leaves room for one check and one sleep after `start`, then
  -- waiting returns without an error.
  pub wait_until_succeeds :
      (label : String) (check : Check S) (s : S) (timeout_ms limit start : ℕ) (m : Machine)
      → TakesAtMost limit check
      → ((s : S) (m : Machine) → (a : S × Probed) × ((check s m).result ≡ ok a))
      → ((s s' : S) (m : Machine) (p : Probed)
          → start ≤ m.now
          → (check s m).result ≡ ok (s', p)
          → is_up p ≡ true)
      → 0 < timeout_ms
      → start + limit + 500 ≤ m.now + timeout_ms
      → (o : Outcome Unit) × (wait_until label check s timeout_ms m ≡ some o) × (o.result ≡ ok tt)
  unfolding TakesAtMost Preserves
  wait_until_succeeds label check s timeout_ms limit start m timely answers ready some_time room =
      let I : S → Machine → Type 0 = λ _ k. k.now < m.now + timeout_ms in
      let kept : Preserves I check = λ s s' k p i same down. elim (Bool-cases (leb start k.now)) [
        | inl reached ↦
            absurd (ground (arith, ready s s' k p (leb→le start k.now reached) same, down))
        | inr not_yet ↦ let early : k.now < start = ground arith in omega (arith, timely s k)
      ] in
      let (o, same, _, ended) =
        wait_until-Ended I label check s timeout_ms limit m timely kept
          (omega (some_time, arith)) in
      (o, same, Ended-result check (m.now + timeout_ms) label o answers ended)
