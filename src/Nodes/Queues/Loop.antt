-- ===== src/Nodes/Queues/Loop.antt =====
-- The loop of `withFlowJobDefaults` of bull-queue.js ends, and walks over the tree.
use node_red_contrib_bull.Prelude.{
  ℕ, zero, suc, ◌+◌, ◌≤◌, ◌<◌, ◌≡◌, refl, true, List, [], ◌∷◌, some, arith, str_eq, if◌then◌else◌,
  Bool-cases, inl, inr,
}
use node_red_contrib_bull.Js.Value.{
  Value, undefined, null, bool, num, str, arr, obj, failure, Items, nil, cons, Fields, end, field,
  truthy, is_object,
}
use node_red_contrib_bull.Js.Objects.{get, find, lookup, own_fields, assign}
use node_red_contrib_bull.Js.Objects.Laws.{find_field}
use node_red_contrib_bull.Nodes.Queues.{
  visit, push_all, push_children, loop, size, size_items, size_fields, options_of,
  with_flow_job_defaults,
}

-- The reference: a job, and then its children from the last to the first, each with its own children.
unfoldable mutual
  pub walk : Value → Value → Fields → Fields
  walk d (obj fs) q = walk_children d fs (visit d (obj fs) q)
  walk d (arr vs) q = visit d (arr vs) q
  walk d (failure kind m) q = visit d (failure kind m) q
  walk d _ q = q

  pub walk_children : Value → Fields → Fields → Fields
  walk_children d end q = q
  walk_children d (field k v fs) q =
      let rest = walk_children d fs q in if str_eq k "children" then walk_array d v q else rest

  pub walk_array : Value → Value → Fields → Fields
  walk_array d (arr vs) q = walk_items d vs q
  walk_array d _ q = q

  pub walk_items : Value → Items → Fields → Fields
  walk_items d nil q = q
  walk_items d (cons v vs) q = walk d v (walk_items d vs q)

walk_pending : Value → List Value → Fields → Fields
walk_pending d [] q = q
walk_pending d (v ∷ vs) q = walk_pending d vs (walk d v q)

size_pending : List Value → ℕ
size_pending [] = 0
size_pending (v ∷ vs) = size v + size_pending vs

size_pos : (v : Value) → 1 ≤ size v
unfolding size
size_pos undefined = omega arith
size_pos null = omega arith
size_pos (bool b) = omega arith
size_pos (num n) = omega arith
size_pos (str s) = omega arith
size_pos (arr vs) = omega arith
size_pos (obj fs) = omega arith
size_pos (failure k m) = omega arith

size-push_all :
    (vs : Items) (pending : List Value)
    → size_pending (push_all vs pending) ≡ size_items vs + size_pending pending
unfolding push_all size_pending size
size-push_all nil pending = omega arith
size-push_all (cons v vs) pending = omega (arith, size-push_all vs (v ∷ pending))

walk-push_all :
    (d : Value) (vs : Items) (pending : List Value) (q : Fields)
    → walk_pending d (push_all vs pending) q ≡ walk_pending d pending (walk_items d vs q)
unfolding push_all walk_pending walk
walk-push_all d nil pending q = refl
walk-push_all d (cons v vs) pending q = walk-push_all d vs (v ∷ pending) q

size-push_children :
    (v : Value) (pending : List Value)
    → size_pending (push_children v pending) ≤ size v + size_pending pending
unfolding size
size-push_children (arr vs) pending = omega (arith, size-push_all vs pending)
size-push_children undefined pending = omega arith
size-push_children null pending = omega arith
size-push_children (bool b) pending = omega arith
size-push_children (num n) pending = omega arith
size-push_children (str s) pending = omega arith
size-push_children (obj fs) pending = omega arith
size-push_children (failure k m) pending = omega arith

walk-push_children :
    (d v : Value) (pending : List Value) (q : Fields)
    → walk_pending d (push_children v pending) q ≡ walk_pending d pending (walk_array d v q)
unfolding walk
walk-push_children d (arr vs) pending q = walk-push_all d vs pending q
walk-push_children d undefined pending q = refl
walk-push_children d null pending q = refl
walk-push_children d (bool b) pending q = refl
walk-push_children d (num n) pending q = refl
walk-push_children d (str s) pending q = refl
walk-push_children d (obj fs) pending q = refl
walk-push_children d (failure k m) pending q = refl

-- The children of an object take part in its size, and `walk_children` walks over them.
size_children :
    (fs : Fields) (pending : List Value)
    → size_pending (push_children (find "children" fs) pending)
      ≤ size_fields fs + size_pending pending
unfolding size
size_children end pending = unfold find lookup in omega arith
size_children (field k v fs) pending = elim (Bool-cases (str_eq k "children")) [
  | inl here ↦ rw (find_field "children" k v fs, here) (omega (arith, size-push_children v pending))
  | inr other ↦ rw (find_field "children" k v fs, other) (omega (arith, size_children fs pending))
]

walk_children-find :
    (d : Value) (fs : Fields) (q : Fields)
    → walk_children d fs q ≡ walk_array d (find "children" fs) q
unfolding walk
walk_children-find d end q = unfold find lookup in refl
walk_children-find d (field k v fs) q =
    ground (arith, find_field "children" k v fs, walk_children-find d fs q)

-- One round of the loop, as the walk makes it.
walk_round :
    (d v : Value) (pending : List Value) (q : Fields)
    → walk_pending d pending (walk d v q) ≡ (
        if is_object v
        then walk_pending d (push_children (get "children" v) pending) (visit d v q)
        else walk_pending d pending q)
unfolding walk is_object get
walk_round d (obj fs) pending q = ground (
  arith,
  walk-push_children d (find "children" fs) pending (visit d (obj fs) q),
  walk_children-find d fs (visit d (obj fs) q),
)
walk_round d (arr vs) pending q = refl
walk_round d (failure k m) pending q = refl
walk_round d undefined pending q = refl
walk_round d null pending q = refl
walk_round d (bool b) pending q = refl
walk_round d (num n) pending q = refl
walk_round d (str s) pending q = refl

-- What a round pushes is smaller than what it pops.
size_round :
    (v : Value) (pending : List Value)
    → size_pending (push_children (get "children" v) pending) < size v + size_pending pending
unfolding get size
size_round (obj fs) pending = omega (arith, size_children fs pending)
size_round (arr vs) pending = omega arith
size_round (failure k m) pending = ground arith
size_round undefined pending = omega arith
size_round null pending = omega arith
size_round (bool b) pending = omega arith
size_round (num n) pending = omega arith
size_round (str s) pending = omega arith

loop-walk :
    (fuel : ℕ) (d : Value) (pending : List Value) (q : Fields)
    → size_pending pending ≤ fuel
    → loop fuel d pending q ≡ some (walk_pending d pending q)
unfolding loop walk_pending size_pending
loop-walk fuel d [] q enough = refl
loop-walk zero d (v ∷ pending) q enough = absurd (omega (arith, size_pos v))
loop-walk (suc fuel) d (v ∷ pending) q enough = elim (Bool-cases (is_object v)) [
  | inl object ↦
      rw (walk_round d v pending q, object)
        (loop-walk fuel d (push_children (get "children" v) pending) (visit d v q)
          (omega (arith, size_round v pending)))
  | inr other ↦
      rw (walk_round d v pending q, other) (loop-walk fuel d pending q (omega (arith, size_pos v)))
]

-- The loop of `withFlowJobDefaults` ends within as many rounds as the flow has values, whatever the flow:
-- with default options, the result has the options of the flow, and as its queues' options those that a
-- recursive walk over the tree makes, a job before its children and the children from the last to the first.
pub with_flow_job_defaults-walk :
    (flow flow_options default_job_options : Value)
    → truthy default_job_options ≡ true
    → with_flow_job_defaults flow flow_options default_job_options
      ≡ some (
          obj (
            assign "queuesOptions"
              (obj (
                walk default_job_options flow
                  (own_fields (get "queuesOptions" (options_of flow_options)))))
              (own_fields (options_of flow_options))))
unfolding with_flow_job_defaults size_pending walk_pending
with_flow_job_defaults-walk flow flow_options d given =
    rw
      (
        given,
        loop-walk (size flow) d (flow ∷ [])
            (own_fields (get "queuesOptions" (options_of flow_options))) (omega arith),
      )
      refl
