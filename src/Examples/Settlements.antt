-- ===== src/Examples/Settlements.antt =====
-- A registry with two manual jobs, of two run nodes, and what happens to them.
use node_red_contrib_bull.Prelude.{◌≡◌, refl, true, List, [], ◌∷◌, none, some, arith}
use node_red_contrib_bull.Js.Number.{nat}
use node_red_contrib_bull.Js.Value.{null, str, obj, end, field, new_error}
use node_red_contrib_bull.Acknowledgements.{
  resolve, Context, Entry, Registry, empty, settled, settle, create, new_entry, new_id, lookup,
  get_entry, wait,
}
use node_red_contrib_bull.Acknowledgements.Invariant.{IsValid, empty-IsValid}
use node_red_contrib_bull.Acknowledgements.History.{
  Event, creates, fails, fires, waits, aborts, rejects, run, step, AllFresh, run-IsValid,
  HasSettlement, run-HasSettlement, settle-wait,
}
use node_red_contrib_bull.Acknowledgements.Promises
use node_red_contrib_bull.Acknowledgements.Promises.{answers_to, outcome_of}
use node_red_contrib_bull.Acknowledgements.Refinement.{IsAttached, promises_of}
use node_red_contrib_bull.Acknowledgements.Refinement.Runs.{run_refines, run-IsAttached}
use node_red_contrib_bull.Acknowledgements.Refinement.Observations.{
  finds, outcome_at, run-observations,
}

abbrev first_context : Context
first_context = record {
  job = obj (field "id" (str "1") end);
  queue_name = "mail";
  run_node_id = "run1";
  token = str "t1";
  signal = some 4;
}

abbrev second_context : Context
second_context = record {
  job = obj (field "id" (str "2") end);
  queue_name = "mail";
  run_node_id = "run2";
  token = str "t2";
  signal = none;
}

abbrev history : List Event
history =
    creates first_context (nat 500) 7 "x" ∷ creates second_context (nat 0) 8 "y" ∷ waits 0 ∷ []

history_fresh : AllFresh empty history
unfolding step lookup new_id create
history_fresh = (refl, (refl, (tt, tt)))

-- The registry after the history.
abbrev pending : Registry
pending = run empty history

abbrev first_entry : Entry
first_entry = record (new_entry first_context (nat 500) "run1:1:7:x") { waited = true }

run-IsValid_example : IsValid (run empty history)
run-IsValid_example = run-IsValid empty history empty-IsValid history_fresh

abbrev one_settled : Registry
one_settled = settle 0 (resolve null) pending

run-HasSettlement_example :
    HasSettlement 0 (resolve null) (run one_settled (fires 0 ∷ fails 0 (str "late") ∷ []))
unfolding run step create settle wait
run-HasSettlement_example =
    run-HasSettlement 0 (resolve null) one_settled (fires 0 ∷ fails 0 (str "late") ∷ [])
      (omega arith, settled (resolve null) first_entry, refl, refl)

settle-wait_example :
    settle 1 (resolve null) (wait 1 pending) ≡ wait 1 (settle 1 (resolve null) pending)
settle-wait_example = settle-wait 1 (resolve null) pending

pending-IsValid : IsValid pending
pending-IsValid = run-IsValid empty history empty-IsValid history_fresh

empty-IsAttached : IsAttached empty
unfolding IsAttached
empty-IsAttached i e at unsettled = cc

-- A later history: the second job's node closes, the first job's signal is aborted and its timer fires.
abbrev ends : List Event
ends = rejects "run2" (new_error "closed") ∷ aborts 4 (str "cancelled") ∷ fires 0 ∷ []

ends_fresh : AllFresh pending ends
ends_fresh = (tt, (tt, (tt, tt)))

pending-IsAttached : IsAttached pending
pending-IsAttached = run-IsAttached empty history empty-IsAttached

run_refines_example : promises_of (run pending ends) ≡ Promises.run (promises_of pending) ends
run_refines_example = run_refines pending ends pending-IsValid pending-IsAttached ends_fresh

run-observations_example :
    (finds 0 (get_entry "run1:1:7:x" (run pending ends))
      ≡ answers_to "run1:1:7:x" ((Promises.run (promises_of pending) ends).promise 0))
    × (outcome_at ((run pending ends).cell 0)
        ≡ outcome_of ((Promises.run (promises_of pending) ends).promise 0))
run-observations_example =
    run-observations pending ends "run1:1:7:x" 0 pending-IsValid pending-IsAttached ends_fresh
