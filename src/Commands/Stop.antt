-- ===== src/Commands/Stop.antt =====
-- `dispatchStopAndRemoveAllJobs` of lib/commands.js: the calls it makes and their order.
use node_red_contrib_bull.Prelude.{
  String, ◌≡◌, refl, true, false, List, [], ◌∷◌, ◌++◌, map, All, Bool-cases, inl, inr,
  if◌then◌else◌, ap, subst,
}
use node_red_contrib_bull.Js.Number.{nat}
use node_red_contrib_bull.Js.Value.{
  Value, bool, num, str, arr, obj, Items, Fields, end, field, Result, ok, truthy, is_nullish,
  or_value, items, of_items,
}
use node_red_contrib_bull.Js.Objects.{get, assign}
use node_red_contrib_bull.Js.Program.{done, Runs, returns, calls, Runs->>=}
use node_red_contrib_bull.Library.{queue, Call, invoke, ask, iterate}
use node_red_contrib_bull.Commands.Jobs.{
  remove_schedulers, clean_all, clean_states, minus_one, dispatch_stop_and_remove_all_jobs,
}

-- The ids that are removed: a scheduler's id, or else its key, where there is one.
abbrev pub scheduler_id : Value → Value
scheduler_id s = or_value (get "id" s) (get "key" s)

unfoldable pub ids_of : List Value → List Value
ids_of [] = []
ids_of (s ∷ ss) =
    let rest = ids_of ss in if truthy (scheduler_id s) then scheduler_id s ∷ rest else rest

abbrev pub removal : Value → Call
removal id = invoke queue "removeJobScheduler" (id ∷ [])

abbrev pub cleaning : String → Call
cleaning state = invoke queue "clean" (num (nat 0) ∷ num (nat 0) ∷ str state ∷ [])

abbrev pub listing : Call
listing = invoke queue "getJobSchedulers" (num (nat 0) ∷ minus_one ∷ bool true ∷ [])

abbrev pub draining : Call
draining = invoke queue "drain" (bool true ∷ [])

-- The numbers of removed jobs, by state.
unfoldable pub assign_all : (String → Value) → List String → Fields → Fields
unfolding assign
assign_all count [] cleaned = cleaned
assign_all count (s ∷ ss) cleaned = assign_all count ss (assign s (count s) cleaned)

run_ask :
    (env : Call → Result Value) (method : String) (args : List Value) (v : Value)
    → env (invoke queue method args) ≡ ok v
    → Runs env (ask queue method args) (invoke queue method args ∷ []) v
run_ask env method args v reply = calls (rw reply returns)

append_assoc_one :
    (xs : List Value) (y : Value) (ys : List Value) → (xs ++ (y ∷ [])) ++ ys ≡ xs ++ (y ∷ ys)
append_assoc_one [] y ys = refl
append_assoc_one (x ∷ xs) y ys = ap (λ zs. x ∷ zs) (append_assoc_one xs y ys)

append_nil : (xs : List Value) → xs ++ [] ≡ xs
append_nil [] = refl
append_nil (x ∷ xs) = ap (λ zs. x ∷ zs) (append_nil xs)

-- The loop removes the listed schedulers one after another.
remove_schedulers-Runs :
    (env : Call → Result Value) (gone : Value → Value) (listed removed : List Value)
    → ((id : Value) → env (removal id) ≡ ok (gone id))
    → All (λ s. is_nullish s ≡ false) listed
    → Runs env
        (remove_schedulers listed removed)
        (map removal (ids_of listed))
        (removed ++ ids_of listed)
unfolding remove_schedulers ids_of
remove_schedulers-Runs env gone [] removed replies there = rw (append_nil removed) returns
remove_schedulers-Runs env gone (s ∷ ss) removed replies (here, there) =
    elim (Bool-cases (truthy (scheduler_id s))) [
      | inl some_id ↦
          rw (here, some_id)
            (Runs->>= (λ _. remove_schedulers ss (removed ++ (scheduler_id s ∷ [])))
              (run_ask env "removeJobScheduler" (scheduler_id s ∷ []) (gone (scheduler_id s))
                (replies (scheduler_id s)))
              (subst (Runs env _ _) (append_assoc_one removed (scheduler_id s) (ids_of ss)) (
                remove_schedulers-Runs env gone ss (removed ++ (scheduler_id s ∷ [])) replies
                  there)))
      | inr no_id ↦ rw (here, no_id) (remove_schedulers-Runs env gone ss removed replies there)
    ]

clean_all-Runs :
    (env : Call → Result Value) (count : String → Value) (states : List String) (cleaned : Fields)
    → ((state : String) → env (cleaning state) ≡ ok (count state))
    → Runs env (clean_all states cleaned) (map cleaning states) (assign_all count states cleaned)
unfolding clean_all assign_all
clean_all-Runs env count [] cleaned replies = returns
clean_all-Runs env count (s ∷ ss) cleaned replies =
    Runs->>= _ (run_ask env "clean" _ (count s) (replies s))
      (clean_all-Runs env count ss (assign s (count s) cleaned) replies)

-- When the queue lists job schedulers, none of them null, and carries out every removal, the drain and
-- every cleaning, the command returns: it has asked for the list, removed each listed scheduler that has
-- an id or a key, in the order of the list, then drained the queue with its delayed jobs, and then cleaned
-- the four states; it returns the ids that it removed and what each cleaning replied.
pub dispatch_stop_and_remove_all_jobs-Runs :
    (env : Call → Result Value) (listed : Items) (gone : Value → Value) (drained : Value)
    (count : String → Value)
    → env listing ≡ ok (arr listed)
    → All (λ s. is_nullish s ≡ false) (items listed)
    → ((id : Value) → env (removal id) ≡ ok (gone id))
    → env draining ≡ ok drained
    → ((state : String) → env (cleaning state) ≡ ok (count state))
    → Runs env dispatch_stop_and_remove_all_jobs
        ((listing ∷ map removal (ids_of (items listed))) ++ (draining ∷ map cleaning clean_states))
        (obj (
          field "removedSchedulers"
            (arr (of_items (ids_of (items listed))))
            (field "cleaned" (obj (assign_all count clean_states end)) end)))
unfolding dispatch_stop_and_remove_all_jobs or_value truthy iterate
dispatch_stop_and_remove_all_jobs-Runs env listed gone drained count lists there removes drains
      cleans =
    Runs->>= _ (run_ask env "getJobSchedulers" _ (arr listed) lists) (
      Runs->>= {m = done (ok (items listed))} _ returns (
        Runs->>= _ (remove_schedulers-Runs env gone (items listed) [] removes there) (
          Runs->>= _ (run_ask env "drain" _ drained drains)
            (Runs->>= _ (clean_all-Runs env count clean_states end cleans) returns))))
