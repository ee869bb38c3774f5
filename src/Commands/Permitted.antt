-- ===== src/Commands/Permitted.antt =====
-- What each command may ask of BullMQ, independently of the code.
use node_red_contrib_bull.Prelude.{
  String, ◌≡◌, true, false, List, [], ◌∷◌, str_eq, if◌then◌else◌, All,
}
use node_red_contrib_bull.Js.Text.{elem}
use node_red_contrib_bull.Js.Value.{Value, arr, items, truthy}
use node_red_contrib_bull.Js.Objects.{get}
use node_red_contrib_bull.Library.{queue, job, Call, invoke, look}
use node_red_contrib_bull.Commands.Names
use node_red_contrib_bull.Commands.Names.{Command}
use node_red_contrib_bull.Commands.Jobs.{has_repeat}

-- The methods of the queue that each command may call, and those of the job that it names.
abbrev pub queue_methods : Command → List String
queue_methods Names.add = "add" ∷ []
queue_methods Names.add_bulk = "addBulk" ∷ []
queue_methods Names.get_job = "getJob" ∷ []
queue_methods Names.get_jobs = "getJobs" ∷ []
queue_methods Names.get_job_state = "getJob" ∷ []
queue_methods Names.remove_job = "getJob" ∷ []
queue_methods Names.retry_job = "getJob" ∷ []
queue_methods Names.retry_jobs = "retryJobs" ∷ []
queue_methods Names.get_delayed = "getDelayed" ∷ []
queue_methods Names.change_delay = "getJob" ∷ []
queue_methods Names.promote_job = "getJob" ∷ []
queue_methods Names.promote_jobs = "promoteJobs" ∷ []
queue_methods Names.get_prioritized = "getPrioritized" ∷ []
queue_methods Names.get_counts_per_priority = "getCountsPerPriority" ∷ []
queue_methods Names.change_priority = "getJob" ∷ []
queue_methods Names.get_deduplication_job_id = "getDeduplicationJobId" ∷ []
queue_methods Names.remove_deduplication_key = "removeDeduplicationKey" ∷ []
queue_methods Names.upsert_job_scheduler = "upsertJobScheduler" ∷ []
queue_methods Names.get_job_scheduler = "getJobScheduler" ∷ []
queue_methods Names.get_job_schedulers = "getJobSchedulers" ∷ []
queue_methods Names.get_job_schedulers_count = "getJobSchedulersCount" ∷ []
queue_methods Names.remove_job_scheduler = "removeJobScheduler" ∷ []
queue_methods Names.get_job_counts = "getJobCounts" ∷ []
queue_methods Names.pause = "pause" ∷ []
queue_methods Names.resume = "resume" ∷ []
queue_methods Names.is_paused = "isPaused" ∷ []
queue_methods Names.is_maxed = "isMaxed" ∷ []
queue_methods Names.drain = "drain" ∷ []
queue_methods Names.clean = "clean" ∷ []
queue_methods Names.stop_and_remove_all_jobs =
    "getJobSchedulers" ∷ "removeJobScheduler" ∷ "drain" ∷ "clean" ∷ []
queue_methods Names.set_global_concurrency = "setGlobalConcurrency" ∷ []
queue_methods Names.get_global_concurrency = "getGlobalConcurrency" ∷ []
queue_methods Names.remove_global_concurrency = "removeGlobalConcurrency" ∷ []
queue_methods Names.set_global_rate_limit = "setGlobalRateLimit" ∷ []
queue_methods Names.get_global_rate_limit = "getGlobalRateLimit" ∷ []
queue_methods Names.remove_global_rate_limit = "removeGlobalRateLimit" ∷ []
queue_methods Names.rate_limit = "rateLimit" ∷ []
queue_methods Names.get_rate_limit_ttl = "getRateLimitTtl" ∷ []
queue_methods Names.remove_rate_limit_key = "removeRateLimitKey" ∷ []
queue_methods Names.add_job_log = "addJobLog" ∷ []
queue_methods Names.get_job_logs = "getJobLogs" ∷ []
queue_methods Names.get_version = "getVersion" ∷ []
queue_methods Names.export_prometheus_metrics = "exportPrometheusMetrics" ∷ []

abbrev pub job_methods : Command → List String
job_methods Names.get_job_state = "getState" ∷ []
job_methods Names.remove_job = "remove" ∷ []
job_methods Names.retry_job = "retry" ∷ []
job_methods Names.change_delay = "changeDelay" ∷ []
job_methods Names.promote_job = "promote" ∷ []
job_methods Names.change_priority = "changePriority" ∷ []
job_methods _ = []

-- No job is added with repeat options.
abbrev pub NoRepeatOptions : List Value → Type 0
NoRepeatOptions (name ∷ job_data ∷ opts ∷ []) = truthy (get "repeat" opts) ≡ false
NoRepeatOptions _ = ⊥

abbrev pub NoRepeatJobs : List Value → Type 0
NoRepeatJobs (arr js ∷ []) = All (λ j. has_repeat j ≡ false) (items js)
NoRepeatJobs _ = Unit

abbrev pub NoRepeat : String → List Value → Type 0
NoRepeat method args =
    if str_eq method "add"
    then NoRepeatOptions args
    else if str_eq method "addBulk"
    then NoRepeatJobs args
    else Unit

-- A call that a command may make.
abbrev pub Allowed : Command → Call → Type 0
Allowed c (invoke queue method args) = (elem method (queue_methods c) ≡ true) × NoRepeat method args
Allowed c (invoke (job _) method args) = elem method (job_methods c) ≡ true
Allowed c (invoke _ method args) = ⊥
Allowed c (look _) = Unit
