-- ===== src/Commands/Dispatch.antt =====
-- `dispatchCommand` of lib/commands.js: its guards and its switch.
use node_red_contrib_bull.Prelude.{
  String, true, false, not, ◌&&◌, ◌||◌, List, [], ◌∷◌, ◌<>◌, Option, none, some, if◌then◌else◌, any,
}
use node_red_contrib_bull.Js.Number.{nat}
use node_red_contrib_bull.Js.Value.{
  Value, bool, num, str, arr, obj, nil, Fields, end, field, throw, truthy, is_present, is_nullish,
  is_array, is_object, or_value, to_string, items,
}
use node_red_contrib_bull.Js.Objects.{get, find, has_own}
use node_red_contrib_bull.Js.Program.{done, ◌>>=◌, ◌>>◌, pure}
use node_red_contrib_bull.Library.{Action, queue, job, ask, look_again, iterate, map_array}
use node_red_contrib_bull.Serialization.{serialize_job}
use node_red_contrib_bull.Scheduler.{get_scheduler_id, serialize_scheduler}
use node_red_contrib_bull.Commands.Names.{
  Command, add, add_bulk, get_job, get_jobs, get_job_state, remove_job, retry_job, retry_jobs,
  get_delayed, change_delay, promote_job, promote_jobs, get_prioritized, get_counts_per_priority,
  change_priority, get_deduplication_job_id, remove_deduplication_key, upsert_job_scheduler,
  get_job_scheduler, get_job_schedulers, get_job_schedulers_count, remove_job_scheduler,
  get_job_counts, pause, resume, is_paused, is_maxed, drain, clean, stop_and_remove_all_jobs,
  set_global_concurrency, get_global_concurrency, remove_global_concurrency, set_global_rate_limit,
  get_global_rate_limit, remove_global_rate_limit, rate_limit, get_rate_limit_ttl,
  remove_rate_limit_key, add_job_log, get_job_logs, get_version, export_prometheus_metrics,
  find_command, find_replacement,
}
use node_red_contrib_bull.Commands.Jobs.{
  value_or_default, empty, get_required_job, repeat_message, dispatch_add, has_repeat, minus_one,
  dispatch_stop_and_remove_all_jobs,
}

abbrev zero_value : Value
zero_value = num (nat 0)

-- `valueOrDefault(msg.start, 0)`, `valueOrDefault(msg.end, -1)`
abbrev pub range : Fields → List Value
range msg =
    value_or_default (find "start" msg) zero_value
    ∷ value_or_default (find "end" msg) minus_one
    ∷ []

-- `(await queue.method(...args)).map(f)`
abbrev pub list_of : (Value → Value) → String → List Value → Action Value
list_of f method args = ask queue method args >>= λ listed. done (map_array f listed)

-- `await queue.method(...args); return true;`
abbrev pub order : String → List Value → Action Value
order method args = ask queue method args >>= λ _. pure (bool true)

-- `const job = await getRequiredJob(queue, msg); await job.method(...args);` and the job's view.
abbrev pub change_job : String → List Value → Fields → Action Value
change_job method args msg = do
  found ← get_required_job msg
  ask (job found) method args
  changed ← look_again found
  pure (serialize_job changed)

unfoldable pub bulk_of : Value → Action Value
bulk_of (arr js) =
    if any has_repeat (items js)
    then done (throw (repeat_message "addBulk"))
    else list_of serialize_job "addBulk" (arr js ∷ [])
bulk_of jobs = list_of serialize_job "addBulk" (jobs ∷ [])

unfoldable pub dispatch_add_bulk : Fields → Action Value
dispatch_add_bulk msg = bulk_of (or_value (find "payload" msg) (arr nil))

unfoldable pub upsert : Fields → Action Value
upsert msg =
    let repeat = find "repeat" msg in
    if not (truthy repeat) || not (is_object repeat) || is_array repeat
    then done
        (throw "upsertJobScheduler requires msg.repeat to be a BullMQ v6 repeat options object")
    else if has_own "cron" repeat || has_own "utc" repeat
    then done (throw "upsertJobScheduler requires BullMQ v6 repeat.pattern and repeat.tz fields")
    else (done (get_scheduler_id (obj msg)) >>= λ id.
        ask queue "upsertJobScheduler" (str id ∷ repeat ∷ find "template" msg ∷ []) >>= λ upserted.
        pure (serialize_job upserted))

-- `a ?? b`
abbrev nullish_or : Value → Value → Value
nullish_or a b = if is_nullish a then b else a

unfoldable pub set_rate_limit : Fields → Action Value
set_rate_limit msg =
    let max = nullish_or (find "max" msg) (get "max" (find "payload" msg)) in
    let duration = nullish_or (find "duration" msg) (get "duration" (find "payload" msg)) in
    if is_nullish max || is_nullish duration
    then done (throw "msg.max and msg.duration are required")
    else order "setGlobalRateLimit" (max ∷ duration ∷ [])

abbrev pub with_scheduler_id : Fields → (String → Action Value) → Action Value
with_scheduler_id msg k = done (get_scheduler_id (obj msg)) >>= k

-- The cases of the switch.
unfoldable pub execute : Command → Fields → Action Value
execute add msg = dispatch_add msg
execute add_bulk msg = dispatch_add_bulk msg
execute get_job msg =
    ask queue "getJob" (find "jobId" msg ∷ []) >>= λ found. pure (serialize_job found)
execute get_jobs msg = list_of serialize_job "getJobs" (
    find "types" msg
    ∷ value_or_default (find "start" msg) zero_value
    ∷ value_or_default (find "end" msg) minus_one
    ∷ value_or_default (find "asc" msg) (bool false)
    ∷ [])
execute get_job_state msg = get_required_job msg >>= λ found. ask (job found) "getState" []
execute remove_job msg =
    get_required_job msg >>= λ found. ask (job found) "remove" [] >>= λ _. pure (bool true)
execute retry_job msg = change_job "retry" (find "state" msg ∷ []) msg
execute retry_jobs msg = ask queue "retryJobs" (or_value (find "opts" msg) empty ∷ [])
execute get_delayed msg = list_of serialize_job "getDelayed" (range msg)
execute change_delay msg = change_job "changeDelay" (find "delay" msg ∷ []) msg
execute promote_job msg = change_job "promote" [] msg
execute promote_jobs msg = ask queue "promoteJobs" []
execute get_prioritized msg = list_of serialize_job "getPrioritized" (range msg)
execute get_counts_per_priority msg =
    ask queue "getCountsPerPriority" (or_value (find "priorities" msg) (arr nil) ∷ [])
execute change_priority msg =
    change_job "changePriority"
      (obj (
          field "priority" (find "priority" msg)
            (field "lifo" (value_or_default (find "lifo" msg) (bool false)) end))
        ∷ [])
      msg
execute get_deduplication_job_id msg =
    ask queue "getDeduplicationJobId" (find "deduplicationId" msg ∷ [])
execute remove_deduplication_key msg =
    ask queue "removeDeduplicationKey" (find "deduplicationId" msg ∷ [])
execute upsert_job_scheduler msg = upsert msg
execute get_job_scheduler msg =
    with_scheduler_id msg
      λ id. ask queue "getJobScheduler" (str id ∷ []) >>= λ found. pure (serialize_scheduler found)
execute get_job_schedulers msg = list_of serialize_scheduler "getJobSchedulers" (
    value_or_default (find "start" msg) zero_value
    ∷ value_or_default (find "end" msg) minus_one
    ∷ value_or_default (find "asc" msg) (bool true)
    ∷ [])
execute get_job_schedulers_count msg = ask queue "getJobSchedulersCount" []
execute remove_job_scheduler msg =
    with_scheduler_id msg λ id. ask queue "removeJobScheduler" (str id ∷ [])
execute get_job_counts msg = done (iterate (or_value (find "types" msg) (arr nil))) >>= λ types.
    ask queue "getJobCounts" types
execute pause msg = order "pause" []
execute resume msg = order "resume" []
execute is_paused msg = ask queue "isPaused" []
execute is_maxed msg = ask queue "isMaxed" []
execute drain msg = order "drain" (value_or_default (find "delayed" msg) (bool false) ∷ [])
execute clean msg = ask queue "clean" (
    value_or_default (find "grace" msg) zero_value
    ∷ value_or_default (find "limit" msg) (num (nat 1000))
    ∷ or_value (find "state" msg) (str "completed")
    ∷ [])
execute stop_and_remove_all_jobs msg = dispatch_stop_and_remove_all_jobs
execute set_global_concurrency msg = order "setGlobalConcurrency" (find "concurrency" msg ∷ [])
execute get_global_concurrency msg = ask queue "getGlobalConcurrency" []
execute remove_global_concurrency msg = ask queue "removeGlobalConcurrency" []
execute set_global_rate_limit msg = set_rate_limit msg
execute get_global_rate_limit msg = ask queue "getGlobalRateLimit" []
execute remove_global_rate_limit msg = ask queue "removeGlobalRateLimit" []
execute rate_limit msg = order "rateLimit" (find "duration" msg ∷ [])
execute get_rate_limit_ttl msg = ask queue "getRateLimitTtl" (find "maxJobs" msg ∷ [])
execute remove_rate_limit_key msg = ask queue "removeRateLimitKey" []
execute add_job_log msg =
    ask queue "addJobLog" (find "jobId" msg ∷ find "logRow" msg ∷ find "keepLogs" msg ∷ [])
execute get_job_logs msg = ask queue "getJobLogs" (
    find "jobId" msg
    ∷ value_or_default (find "start" msg) zero_value
    ∷ value_or_default (find "end" msg) minus_one
    ∷ value_or_default (find "asc" msg) (bool true)
    ∷ [])
execute get_version msg = ask queue "getVersion" []
execute export_prometheus_metrics msg = ask queue "exportPrometheusMetrics" []

-- The `case` that a value of `cmd` selects: the switch compares by ===.
unfoldable pub select : Value → Option Command
select (str s) = find_command s
select _ = none

abbrev pub removed_message : String → String → String
removed_message cmd replacement =
    "cmd \"" <> cmd <> "\" is not supported; use \"" <> replacement <> "\""

abbrev pub run_selected : Option Command → Value → Fields → Action Value
run_selected (some c) cmd msg = execute c msg
run_selected none cmd msg = done (throw ("Unsupported bullmq cmd: " <> to_string cmd))

abbrev pub run_unless_removed : Option String → Value → Fields → Action Value
run_unless_removed (some replacement) cmd msg =
    done (throw (removed_message (to_string cmd) replacement))
run_unless_removed none cmd msg = run_selected (select cmd) cmd msg

-- `msg.cmd || "add"`
abbrev pub command_of : Fields → Value
command_of msg = or_value (find "cmd" msg) (str "add")

unfoldable pub dispatch_command : Fields → Action Value
dispatch_command msg =
    if not (is_present (find "cmd" msg)) && is_present (find "command" msg)
    then done (throw "msg.command is not supported; use msg.cmd")
    else if not (is_present (find "jobId" msg)) && is_present (find "jobid" msg)
    then done (throw "msg.jobid is not supported; use msg.jobId")
    else run_unless_removed (find_replacement (to_string (command_of msg))) (command_of msg) msg
