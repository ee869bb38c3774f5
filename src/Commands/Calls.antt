-- ===== src/Commands/Calls.antt =====
-- Which methods of BullMQ a command can reach, under any replies.
use node_red_contrib_bull.Prelude.{
  String, ◌≡◌, refl, Bool, true, false, List, [], ◌∷◌, Option, none, some, arith, any, All,
  if◌then◌else◌,
}
use node_red_contrib_bull.Js.Text.{elem}
use node_red_contrib_bull.Js.Value.{Value, Fields, end, arr, items, throw, or_value, truthy}
use node_red_contrib_bull.Js.Objects.{find, get as get_property}
use node_red_contrib_bull.Js.Program.{done, Calls, over, first, Calls->>=, Calls-if, Calls-test}
use node_red_contrib_bull.Library.{Target, queue, job, Call, invoke, look, Action, ask, look_again}
use node_red_contrib_bull.Commands.Names
use node_red_contrib_bull.Commands.Names.{Command}
use node_red_contrib_bull.Commands.Jobs.{
  get_required_job, empty, dispatch_add, remove_schedulers, clean_all, clean_states, has_repeat,
  dispatch_stop_and_remove_all_jobs,
}
use node_red_contrib_bull.Commands.Permitted.{Allowed}
use node_red_contrib_bull.Commands.Dispatch.{
  command_of, bulk_of, dispatch_add_bulk, upsert, select, run_unless_removed, set_rate_limit,
  execute, dispatch_command, change_job,
}

module _ {P : Call → Type 0} where
  ask-Calls :
      {t : Target} {method : String} {args : List Value}
      → P (invoke t method args)
      → Calls P (ask t method args)
  ask-Calls p = first p (λ _. over)

  look_again-Calls : {v : Value} → P (look v) → Calls P (look_again v)
  look_again-Calls p = first p (λ _. over)

module _ {P : Call → Type 0} (get : (args : List Value) → P (invoke queue "getJob" args)) where
  get_required_job-Calls : (msg : Fields) → Calls P (get_required_job msg)
  unfolding get_required_job
  get_required_job-Calls msg =
      Calls-if _ over (Calls->>= (ask-Calls (get _)) (λ found. Calls-if _ over over))

  change_job-Calls :
      ((v : Value) → P (look v))
      → (method : String) (args : List Value) (msg : Fields)
      → ((v : Value) → P (invoke (job v) method args))
      → Calls P (change_job method args msg)
  change_job-Calls l method args msg q = Calls->>= (get_required_job-Calls msg) (λ found.
      Calls->>= (ask-Calls (q found)) (λ _. Calls->>= (look_again-Calls (l found)) (λ _. over)))

remove_schedulers-Calls :
    (listed removed : List Value)
    → Calls (Allowed Names.stop_and_remove_all_jobs) (remove_schedulers listed removed)
unfolding remove_schedulers elem
remove_schedulers-Calls [] removed = over
remove_schedulers-Calls (s ∷ rest) removed = Calls-if _ over (
    Calls-if _ (Calls->>= (ask-Calls (refl, tt)) (λ _. remove_schedulers-Calls rest _))
      (remove_schedulers-Calls rest removed))

clean_all-Calls :
    (states : List String) (cleaned : Fields)
    → Calls (Allowed Names.stop_and_remove_all_jobs) (clean_all states cleaned)
unfolding clean_all elem
clean_all-Calls [] cleaned = over
clean_all-Calls (s ∷ states) cleaned =
    Calls->>= (ask-Calls (refl, tt)) (λ v. clean_all-Calls states _)

stop-Calls : Calls (Allowed Names.stop_and_remove_all_jobs) dispatch_stop_and_remove_all_jobs
unfolding dispatch_stop_and_remove_all_jobs elem
stop-Calls = Calls->>= (ask-Calls (refl, tt)) (λ schedulers. Calls->>= over (λ listed.
    Calls->>= (remove_schedulers-Calls listed []) (λ removed.
      Calls->>= (ask-Calls (refl, tt))
        (λ _. Calls->>= (clean_all-Calls clean_states end) (λ _. over)))))

add-Calls : (msg : Fields) → Calls (Allowed Names.add) (dispatch_add msg)
unfolding dispatch_add elem
add-Calls msg =
    let opts = or_value (find "jobopts" msg) empty in
    Calls-test (truthy (get_property "repeat" opts)) (λ _. over)
      (λ plain. Calls->>= (first (refl, plain) (λ _. over)) (λ _. over))

no_repeat : (js : List Value) → any has_repeat js ≡ false → All (λ j. has_repeat j ≡ false) js
no_repeat [] h = tt
no_repeat (j ∷ js) h = (ground arith, no_repeat js (ground arith))

bulk_of-Calls : (jobs : Value) → Calls (Allowed Names.add_bulk) (bulk_of jobs)
unfolding bulk_of elem
bulk_of-Calls (arr js) =
    Calls-test (any has_repeat (items js)) (λ _. over)
      (λ plain. Calls->>= (first (refl, no_repeat (items js) plain) (λ _. over)) (λ _. over))
bulk_of-Calls _ = Calls->>= (ask-Calls (refl, tt)) (λ _. over)

upsert-Calls : (msg : Fields) → Calls (Allowed Names.upsert_job_scheduler) (upsert msg)
unfolding upsert elem
upsert-Calls msg = search (Calls-if, Calls->>=, over, ask-Calls) depth 9

rate_limit-Calls : (msg : Fields) → Calls (Allowed Names.set_global_rate_limit) (set_rate_limit msg)
unfolding set_rate_limit elem
rate_limit-Calls msg = Calls-if _ over (Calls->>= (ask-Calls (refl, tt)) (λ _. over))

execute-Calls : (c : Command) (msg : Fields) → Calls (Allowed c) (execute c msg)
unfolding execute elem dispatch_add_bulk
execute-Calls Names.add msg = add-Calls msg
execute-Calls Names.add_bulk msg = bulk_of-Calls _
execute-Calls Names.get_job msg = Calls->>= (ask-Calls (refl, tt)) (λ _. over)
execute-Calls Names.get_jobs msg = Calls->>= (ask-Calls (refl, tt)) (λ _. over)
execute-Calls Names.get_delayed msg = Calls->>= (ask-Calls (refl, tt)) (λ _. over)
execute-Calls Names.get_prioritized msg = Calls->>= (ask-Calls (refl, tt)) (λ _. over)
execute-Calls Names.get_job_schedulers msg = Calls->>= (ask-Calls (refl, tt)) (λ _. over)
execute-Calls Names.pause msg = Calls->>= (ask-Calls (refl, tt)) (λ _. over)
execute-Calls Names.resume msg = Calls->>= (ask-Calls (refl, tt)) (λ _. over)
execute-Calls Names.drain msg = Calls->>= (ask-Calls (refl, tt)) (λ _. over)
execute-Calls Names.set_global_concurrency msg = Calls->>= (ask-Calls (refl, tt)) (λ _. over)
execute-Calls Names.rate_limit msg = Calls->>= (ask-Calls (refl, tt)) (λ _. over)
execute-Calls Names.get_job_state msg =
    Calls->>= (get_required_job-Calls (λ _. (refl, tt)) msg) (λ _. ask-Calls refl)
execute-Calls Names.remove_job msg =
    Calls->>= (get_required_job-Calls (λ _. (refl, tt)) msg)
      (λ _. Calls->>= (ask-Calls refl) (λ _. over))
execute-Calls Names.retry_job msg = change_job-Calls (λ _. (refl, tt)) (λ _. tt) _ _ msg (λ _. refl)
execute-Calls Names.change_delay msg =
    change_job-Calls (λ _. (refl, tt)) (λ _. tt) _ _ msg (λ _. refl)
execute-Calls Names.promote_job msg =
    change_job-Calls (λ _. (refl, tt)) (λ _. tt) _ _ msg (λ _. refl)
execute-Calls Names.change_priority msg =
    change_job-Calls (λ _. (refl, tt)) (λ _. tt) _ _ msg (λ _. refl)
execute-Calls Names.upsert_job_scheduler msg = upsert-Calls msg
execute-Calls Names.get_job_scheduler msg =
    Calls->>= over (λ _. Calls->>= (ask-Calls (refl, tt)) (λ _. over))
execute-Calls Names.remove_job_scheduler msg = Calls->>= over (λ _. ask-Calls (refl, tt))
execute-Calls Names.get_job_counts msg = Calls->>= over (λ _. ask-Calls (refl, tt))
execute-Calls Names.stop_and_remove_all_jobs msg = stop-Calls
execute-Calls Names.set_global_rate_limit msg = rate_limit-Calls msg
execute-Calls _ msg = ask-Calls (refl, tt)

run_unless_removed-Calls :
    (r : Option String) (cmd : Value) (msg : Fields) {c : Command}
    → select cmd ≡ some c
    → Calls (Allowed c) (run_unless_removed r cmd msg)
run_unless_removed-Calls (some r) cmd msg e = over
run_unless_removed-Calls none cmd msg {c} e = rw e (execute-Calls c msg)

-- Whatever the rest of the message and whatever BullMQ answers, a command that the switch has calls only
-- the methods that are listed for it, on the queue or on a job; it never calls `add` with repeat options,
-- nor `addBulk` with an array in which a job has repeat options.
pub dispatch_command-Calls :
    (msg : Fields) (c : Command)
    → select (command_of msg) ≡ some c
    → Calls (Allowed c) (dispatch_command msg)
unfolding dispatch_command
dispatch_command-Calls msg c e = search (Calls-if, over, run_unless_removed-Calls)

-- A program that calls nothing and throws an Error.
pub data IsRefusal : Action Value → Type 0 where
  refused : {message : String} → IsRefusal (done (throw message))

IsRefusal-if :
    (b : Bool) {x y : Action Value} → IsRefusal x → IsRefusal y → IsRefusal (if b then x else y)
IsRefusal-if true h k = h
IsRefusal-if false h k = k

run_unless_removed-IsRefusal :
    (r : Option String) (cmd : Value) (msg : Fields)
    → select cmd ≡ none
    → IsRefusal (run_unless_removed r cmd msg)
run_unless_removed-IsRefusal (some r) cmd msg e = refused
run_unless_removed-IsRefusal none cmd msg e = rw e refused

-- A message whose `cmd` is the label of no case is refused by an error, and nothing is called.
pub dispatch_command_unknown :
    (msg : Fields) → select (command_of msg) ≡ none → IsRefusal (dispatch_command msg)
unfolding dispatch_command
dispatch_command_unknown msg e = search (IsRefusal-if, refused, run_unless_removed-IsRefusal)
