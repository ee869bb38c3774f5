-- ===== src/Nodes/Job.antt =====
-- bull-queue.js: `BullJobNode`, the actions on an acknowledged job. The calls of an action come first and
-- its settlement follows them, so an action gives what it settles the acknowledgement with, if it does,
-- and the payload that it sends on, if it does; an action that throws does neither.
pub mod Settles
use node_red_contrib_bull.Prelude.{
  ℕ, ◌+◌, ◌*◌, ◌^◌, String, Bool, true, false, not, ◌||◌, List, [], ◌∷◌, Option, none, some, ◌<>◌,
  if◌then◌else◌,
}
use node_red_contrib_bull.Js.Number.{Number, nat, dec, is_finite, is_below}
use node_red_contrib_bull.Js.Value.{
  Value, undefined, bool, num, str, obj, failure, unrecoverable, waiting, delayed, rate_limit,
  Fields, Result, ok, err, throw, new_error, truthy, is_undefined, or_value, to_string, to_number,
}
use node_red_contrib_bull.Js.Objects.{find, get, has_own}
use node_red_contrib_bull.Js.Program.{Program, done, ◌>>=◌, ◌>>◌, pure}
use node_red_contrib_bull.Library.{Target, queue, worker, job, Action, ask, look_again}
use node_red_contrib_bull.Serialization.{serialize_job}
use node_red_contrib_bull.Acknowledgements.{
  Settlement, resolve, reject, Context, Registry, get_entry, settle, missing_message,
}
use node_red_contrib_bull.Commands.Names.{assoc}

pub data JobAction : Type 0 where
  progress remove_deduplication_key get_children_values get_failed_children_values : JobAction
  remove_unprocessed_children complete fail fail_unrecoverable limit_rate move_to_wait : JobAction
  move_to_delayed update_data cancel_job cancel_all_jobs : JobAction

abbrev pub job_actions : List (String × JobAction)
job_actions =
    ("progress", progress)
    ∷ ("removeDeduplicationKey", remove_deduplication_key)
    ∷ ("getChildrenValues", get_children_values)
    ∷ ("getFailedChildrenValues", get_failed_children_values)
    ∷ ("removeUnprocessedChildren", remove_unprocessed_children)
    ∷ ("complete", complete)
    ∷ ("fail", fail)
    ∷ ("failUnrecoverable", fail_unrecoverable)
    ∷ ("rateLimit", limit_rate)
    ∷ ("moveToWait", move_to_wait)
    ∷ ("moveToDelayed", move_to_delayed)
    ∷ ("updateData", update_data)
    ∷ ("cancelJob", cancel_job)
    ∷ ("cancelAllJobs", cancel_all_jobs)
    ∷ []

-- The messages of BullMQ's errors for the transitions of a job.
pub record TransitionErrors : Type 0 where
  pub waiting_message : String
  pub delayed_message : String
  pub rate_limit_message : String

pub record Reply : Type 0 where
  pub settlement : Option Settlement
  pub output : Option Value

abbrev pub sends : Value → Reply
sends payload = record { settlement = none; output = some payload }

abbrev pub fails_with : Value → Reply
fails_with error = record { settlement = some (reject error); output = none }

abbrev pub fails_and_sends : Value → Reply
fails_and_sends error = record { settlement = some (reject error); output = some (bool true) }

-- `msg.payload = await job.method(...)`
abbrev pub forward : Target → String → List Value → Action Reply
forward target method args = ask target method args >>= λ v. pure (sends v)

-- The job is changed and its view is sent.
abbrev pub change : Context → String → List Value → Action Reply
change c method args =
    ask (job c.job) method args >>= λ _. look_again c.job >>= λ j. pure (sends (serialize_job j))

abbrev pub result_of : Fields → Value
result_of msg = if is_undefined (find "result" msg) then find "payload" msg else find "result" msg

-- `msg.error instanceof Error ? msg.error : new Error(String(msg.error || msg.payload))`
abbrev pub error_of : Value → Value → Value
error_of (failure kind m) payload = failure kind m
error_of v payload = new_error (to_string (or_value v payload))

-- `Date.now() + delay`, where the delay is not negative: its digits are 0 if it has a sign.
abbrev pub plus_delay : ℕ → Number → Number
plus_delay now (dec false d s) = dec false (d + now * 10 ^ s) s
plus_delay now (dec true d s) = nat now
plus_delay now n = n

abbrev pub reason_of : Fields → Value
reason_of msg = or_value (find "reason" msg) (str "BullMQ job cancelled")

abbrev pub cancel : Context → Fields → Action Reply
cancel c msg = ask worker "cancelJob" (get "id" c.job ∷ reason_of msg ∷ []) >>= λ cancelled.
    if truthy cancelled
    then pure (sends cancelled)
    else done
        (throw ("BullMQ found no cancellable processor for job " <> to_string (get "id" c.job)))

abbrev pub select_action : Value → Option JobAction
select_action (str s) = assoc s job_actions
select_action _ = none

-- `acknowledgements.get(ackId)`: the keys of the Map are texts.
abbrev pub acknowledged : Value → Registry → Result ℕ
acknowledged (str ack_id) r = get_entry ack_id r
acknowledged _ r = throw missing_message

abbrev pub context_at : ℕ → Registry → Option Context
context_at i r = elim (r.cell i) [ none ↦ none | some e ↦ some e.context ]

module _ (errors : TransitionErrors) where
  abbrev pub delay_job : ℕ → Context → Number → Action Reply
  delay_job now c delay =
      if not (is_finite delay) || is_below delay 0
      then done (throw "moveToDelayed requires msg.delay in milliseconds")
      else ask (job c.job) "moveToDelayed" (num (plus_delay now delay) ∷ c.token ∷ []) >>= λ _.
          pure (fails_and_sends (failure delayed errors.delayed_message))

  -- The cases of the switch, at a time `now`.
  unfoldable pub act : ℕ → JobAction → Context → Fields → Action Reply
  act now progress c msg = change c "updateProgress" (
      (if is_undefined (find "progress" msg) then find "payload" msg else find "progress" msg) ∷ [])
  act now remove_deduplication_key c msg = forward (job c.job) "removeDeduplicationKey" []
  act now get_children_values c msg = forward (job c.job) "getChildrenValues" []
  act now get_failed_children_values c msg = forward (job c.job) "getFailedChildrenValues" []
  act now remove_unprocessed_children c msg = forward (job c.job) "removeUnprocessedChildren" []
  act now complete c msg =
      pure (record { settlement = some (resolve (result_of msg)); output = some (result_of msg) })
  act now fail c msg = pure (fails_with (error_of (find "error" msg) (find "payload" msg)))
  act now fail_unrecoverable c msg = pure (
      fails_with (
        failure unrecoverable (
          to_string (
            or_value (or_value (find "error" msg) (find "payload" msg))
              (str "Unrecoverable BullMQ job failure")))))
  act now limit_rate c msg = ask queue "rateLimit" (find "duration" msg ∷ []) >>= λ _.
      pure (fails_with (failure rate_limit errors.rate_limit_message))
  act now move_to_wait c msg = ask (job c.job) "moveToWait" (c.token ∷ []) >>= λ _.
      pure (fails_and_sends (failure waiting errors.waiting_message))
  act now move_to_delayed c msg = delay_job now c (to_number (find "delay" msg))
  act now update_data c msg =
      change c "updateData"
        ((if has_own "jobData" (obj msg) then find "jobData" msg else find "payload" msg) ∷ [])
  act now cancel_job c msg = cancel c msg
  act now cancel_all_jobs c msg =
      ask worker "cancelAllJobs" (reason_of msg ∷ []) >>= λ _. pure (sends (bool true))

  abbrev pub act_selected : ℕ → Option JobAction → Value → Option Context → Fields → Action Reply
  act_selected now (some a) v (some c) msg = act now a c msg
  act_selected now none v (some c) msg =
      done (throw ("Unsupported bullmq job action: " <> to_string v))
  act_selected now a v none msg = done (throw missing_message)

  -- The handler, for the action that the node is configured with: the address of the acknowledgement,
  -- and what becomes of it.
  unfoldable pub on_input : ℕ → Value → Registry → Fields → Action (ℕ × Reply)
  on_input now node_action r msg =
      let action = or_value (find "cmd" msg) node_action in
      done (acknowledged (get "ackId" (find "bull" msg)) r) >>= λ i.
      act_selected now (select_action action) action (context_at i r) msg >>= λ reply.
      pure (i, reply)

-- The settlement of a reply.
abbrev pub apply_reply : ℕ → Option Settlement → Registry → Registry
apply_reply i none r = r
apply_reply i (some s) r = settle i s r
