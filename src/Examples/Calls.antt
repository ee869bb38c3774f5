-- ===== src/Examples/Calls.antt =====
-- Messages, and a queue that answers them.
use node_red_contrib_bull.Prelude.{
  ◌≡◌, refl, false, ◌∷◌, ◌++◌, map, some, All, str_eq, if◌then◌else◌,
}
use node_red_contrib_bull.Js.Number.{nat}
use node_red_contrib_bull.Js.Value.{
  or_value, truthy, Value, num, str, obj, arr, Items, nil, cons, Fields, end, field, Result, ok,
  items, of_items, is_nullish,
}
use node_red_contrib_bull.Js.Objects.{find, lookup}
use node_red_contrib_bull.Js.Program.{Calls, Runs}
use node_red_contrib_bull.Library.{Call, invoke, look}
use node_red_contrib_bull.Commands.Names.{add, get_jobs, find_command, assoc}
use node_red_contrib_bull.Commands.Jobs.{dispatch_stop_and_remove_all_jobs, clean_states}
use node_red_contrib_bull.Commands.Dispatch.{dispatch_command, select, command_of}
use node_red_contrib_bull.Commands.Permitted.{Allowed}
use node_red_contrib_bull.Commands.Calls.{dispatch_command-Calls}
use node_red_contrib_bull.Commands.Stop.{
  listing, removal, draining, cleaning, ids_of, assign_all, dispatch_stop_and_remove_all_jobs-Runs,
}

abbrev plain_message : Fields
plain_message = field "payload" (str "hello") end

abbrev read_message : Fields
read_message = field "cmd" (str "getJobs") end

plain_selects : select (command_of plain_message) ≡ some add
unfolding select find_command assoc or_value truthy find lookup
plain_selects = refl

read_selects : select (command_of read_message) ≡ some get_jobs
unfolding select find_command assoc or_value truthy find lookup
read_selects = refl

dispatch_command-Calls_example : Calls (Allowed add) (dispatch_command plain_message)
dispatch_command-Calls_example = dispatch_command-Calls plain_message add plain_selects

abbrev listed : Items
listed =
    cons (obj (field "id" (str "daily") end))
      (cons (obj (field "key" (str "k2") end)) (cons (obj end) nil))

-- The queue lists three schedulers; every other call gives 1.
abbrev answer : Call → Result Value
answer (invoke target method args) =
    if str_eq method "getJobSchedulers" then ok (arr listed) else ok (num (nat 1))
answer (look v) = ok v

listed_there : All (λ s. is_nullish s ≡ false) (items listed)
unfolding is_nullish
listed_there = (refl, (refl, (refl, tt)))

dispatch_stop_and_remove_all_jobs-Runs_example :
    Runs answer dispatch_stop_and_remove_all_jobs
      ((listing ∷ map removal (ids_of (items listed))) ++ (draining ∷ map cleaning clean_states))
      (obj (
        field "removedSchedulers"
          (arr (of_items (ids_of (items listed))))
          (field "cleaned" (obj (assign_all (λ state. num (nat 1)) clean_states end)) end)))
dispatch_stop_and_remove_all_jobs-Runs_example =
    dispatch_stop_and_remove_all_jobs-Runs answer listed (λ id. num (nat 1)) (num (nat 1))
      (λ state. num (nat 1)) refl listed_there (λ id. refl) refl (λ state. refl)
