-- ===== src/Commands/Jobs.antt =====
-- The helpers of lib/commands.js: `valueOrDefault`, `getRequiredJob`, `dispatchAdd` and
-- `dispatchStopAndRemoveAllJobs`.
use node_red_contrib_bull.Prelude.{
  String, Bool, true, ◌&&◌, List, [], ◌∷◌, ◌++◌, ◌<>◌, str_eq, if◌then◌else◌,
}
use node_red_contrib_bull.Js.Number.{nat, dec}
use node_red_contrib_bull.Js.Value.{
  Value, bool, num, str, arr, obj, failure, type_error, nil, Fields, end, field, err, throw, truthy,
  is_nullish, or_value, of_items,
}
use node_red_contrib_bull.Js.Objects.{get, find, has_own, assign}
use node_red_contrib_bull.Js.Program.{done, ◌>>=◌, ◌>>◌, pure}
use node_red_contrib_bull.Library.{Action, queue, ask, iterate}
use node_red_contrib_bull.Serialization.{serialize_job}
use node_red_contrib_bull.Scheduler.{trimmed_text}

unfoldable pub value_or_default : Value → Value → Value
value_or_default value default_value = if is_nullish value then default_value else value

-- An empty object.
abbrev pub empty : Value
empty = obj end

unfoldable pub get_required_job : Fields → Action Value
get_required_job msg =
    let job_id = trimmed_text (find "jobId" msg) in
    if str_eq job_id ""
    then done (throw "msg.jobId is required")
    else ask queue "getJob" (str job_id ∷ []) >>= λ found.
        if truthy found then pure found else done (throw ("Job not found: " <> job_id))

abbrev pub repeat_message : String → String
repeat_message cmd =
    cmd
    <> " does not support repeat options; use cmd \"upsertJobScheduler\" with msg.repeat.pattern"

abbrev pub job_data : Fields → Value
job_data msg =
    if has_own "jobData" (obj msg)
    then find "jobData" msg
    else obj (field "payload" (find "payload" msg) end)

unfoldable pub dispatch_add : Fields → Action Value
dispatch_add msg =
    let opts = or_value (find "jobopts" msg) empty in
    if truthy (get "repeat" opts)
    then done (throw (repeat_message "add"))
    else ask queue "add" (or_value (find "jobName" msg) (str "default") ∷ job_data msg ∷ opts ∷ [])
      >>= λ added. pure (serialize_job added)

-- `job && job.opts && job.opts.repeat`
unfoldable pub has_repeat : Value → Bool
has_repeat j = truthy j && truthy (get "opts" j) && truthy (get "repeat" (get "opts" j))

-- `for (const scheduler of schedulers || [])`; gives the ids removed, after those removed before.
unfoldable pub remove_schedulers : List Value → List Value → Action (List Value)
remove_schedulers [] removed = pure removed
remove_schedulers (scheduler ∷ rest) removed =
    let id = or_value (get "id" scheduler) (get "key" scheduler) in
    let skip = remove_schedulers rest removed in
    let more = ask queue "removeJobScheduler" (id ∷ []) >>= λ _.
    remove_schedulers rest (removed ++ (id ∷ [])) in
    if is_nullish scheduler
    then done (err (failure type_error "Cannot read properties of null"))
    else if truthy id
    then more
    else skip

abbrev pub clean_states : List String
clean_states = "completed" ∷ "failed" ∷ "delayed" ∷ "wait" ∷ []

-- `for (const state of CLEAN_STATES)`
unfoldable pub clean_all : List String → Fields → Action Fields
clean_all [] cleaned = pure cleaned
clean_all (state ∷ states) cleaned =
    ask queue "clean" (num (nat 0) ∷ num (nat 0) ∷ str state ∷ []) >>= λ removed.
    clean_all states (assign state removed cleaned)

abbrev pub minus_one : Value
minus_one = num (dec true 1 0)

unfoldable pub dispatch_stop_and_remove_all_jobs : Action Value
dispatch_stop_and_remove_all_jobs = do
  schedulers ← ask queue "getJobSchedulers" (num (nat 0) ∷ minus_one ∷ bool true ∷ [])
  listed ← done (iterate (or_value schedulers (arr nil)))
  removed ← remove_schedulers listed []
  ask queue "drain" (bool true ∷ [])
  cleaned ← clean_all clean_states end
  pure
      (obj (field "removedSchedulers" (arr (of_items removed)) (field "cleaned" (obj cleaned) end)))
