-- ===== src/Commands/Names.antt =====
-- The `case` labels of `dispatchCommand`, and REMOVED_COMMANDS.
use node_red_contrib_bull.Prelude.{
  String, ◌≡◌, refl, List, [], ◌∷◌, Option, none, some, str_eq, if◌then◌else◌,
}

pub data Command : Type 0 where
  add add_bulk get_job get_jobs get_job_state remove_job retry_job retry_jobs : Command
  get_delayed change_delay promote_job promote_jobs get_prioritized : Command
  get_counts_per_priority change_priority get_deduplication_job_id : Command
  remove_deduplication_key upsert_job_scheduler get_job_scheduler get_job_schedulers : Command
  get_job_schedulers_count remove_job_scheduler get_job_counts pause resume : Command
  is_paused is_maxed drain clean stop_and_remove_all_jobs set_global_concurrency : Command
  get_global_concurrency remove_global_concurrency set_global_rate_limit : Command
  get_global_rate_limit remove_global_rate_limit rate_limit get_rate_limit_ttl : Command
  remove_rate_limit_key add_job_log get_job_logs get_version : Command
  export_prometheus_metrics : Command

unfoldable pub assoc {ℓ} : {A : Type ℓ} → String → List (String × A) → Option A
assoc k [] = none
assoc k ((j, a) ∷ rest) = if str_eq j k then some a else assoc k rest

abbrev pub cases : List (String × Command)
cases =
    ("add", add)
    ∷ ("addBulk", add_bulk)
    ∷ ("getJob", get_job)
    ∷ ("getJobs", get_jobs)
    ∷ ("getJobState", get_job_state)
    ∷ ("removeJob", remove_job)
    ∷ ("retryJob", retry_job)
    ∷ ("retryJobs", retry_jobs)
    ∷ ("getDelayed", get_delayed)
    ∷ ("changeDelay", change_delay)
    ∷ ("promoteJob", promote_job)
    ∷ ("promoteJobs", promote_jobs)
    ∷ ("getPrioritized", get_prioritized)
    ∷ ("getCountsPerPriority", get_counts_per_priority)
    ∷ ("changePriority", change_priority)
    ∷ ("getDeduplicationJobId", get_deduplication_job_id)
    ∷ ("removeDeduplicationKey", remove_deduplication_key)
    ∷ ("upsertJobScheduler", upsert_job_scheduler)
    ∷ ("getJobScheduler", get_job_scheduler)
    ∷ ("getJobSchedulers", get_job_schedulers)
    ∷ ("getJobSchedulersCount", get_job_schedulers_count)
    ∷ ("removeJobScheduler", remove_job_scheduler)
    ∷ ("getJobCounts", get_job_counts)
    ∷ ("pause", pause)
    ∷ ("resume", resume)
    ∷ ("isPaused", is_paused)
    ∷ ("isMaxed", is_maxed)
    ∷ ("drain", drain)
    ∷ ("clean", clean)
    ∷ ("stopAndRemoveAllJobs", stop_and_remove_all_jobs)
    ∷ ("setGlobalConcurrency", set_global_concurrency)
    ∷ ("getGlobalConcurrency", get_global_concurrency)
    ∷ ("removeGlobalConcurrency", remove_global_concurrency)
    ∷ ("setGlobalRateLimit", set_global_rate_limit)
    ∷ ("getGlobalRateLimit", get_global_rate_limit)
    ∷ ("removeGlobalRateLimit", remove_global_rate_limit)
    ∷ ("rateLimit", rate_limit)
    ∷ ("getRateLimitTtl", get_rate_limit_ttl)
    ∷ ("removeRateLimitKey", remove_rate_limit_key)
    ∷ ("addJobLog", add_job_log)
    ∷ ("getJobLogs", get_job_logs)
    ∷ ("getVersion", get_version)
    ∷ ("exportPrometheusMetrics", export_prometheus_metrics)
    ∷ []

unfoldable pub find_command : String → Option Command
unfolding assoc
find_command name = assoc name cases

abbrev pub removed_commands : List (String × String)
removed_commands =
    ("count", "getJobSchedulersCount")
    ∷ ("getRepeatableJobs", "getJobSchedulers")
    ∷ ("getRepeatableJobByKey", "getJobScheduler")
    ∷ ("removeRepeatableByKey", "removeJobScheduler")
    ∷ []

unfoldable pub find_replacement : String → Option String
unfolding assoc
find_replacement name = assoc name removed_commands

replacement_test : find_replacement "count" ≡ some "getJobSchedulersCount"
unfolding find_replacement
replacement_test = refl
