-- ===== src/Nodes/Queues/Visits.antt =====
-- What a job of a flow does to the options of a queue, in `withFlowJobDefaults` of bull-queue.js.
use node_red_contrib_bull.Prelude.{
  String, ◌≡◌, refl, Bool, true, false, not, ◌&&◌, ◌||◌, some, arith, str_eq, str_eq_iff,
  if◌then◌else◌, Bool-cases, inl, inr,
}
use node_red_contrib_bull.Js.Value.{
  Value, undefined, null, bool, num, str, arr, obj, failure, Items, nil, cons, Fields, end, field,
  truthy, or_value,
}
use node_red_contrib_bull.Js.Objects.{get, lookup, own_fields, spread, assign, lookup-assign}
use node_red_contrib_bull.Js.Objects.Laws.{find-assign}
use node_red_contrib_bull.Nodes.Queues.{
  with_defaults, queue_options_of, stamp_queue, stamp_named, visit,
}

-- The default options that are set for the queue `s`.
unfoldable pub cell : String → Fields → Fields
cell s queues_options = own_fields (get "defaultJobOptions" (queue_options_of s queues_options))

-- The job is one of the queue `s`.
abbrev pub names : String → Value → Bool
names s (str name) = not (str_eq name "") && str_eq name s
names s _ = false

-- A job of the tree is one of the queue `s`.
unfoldable mutual
  pub mentions : String → Value → Bool
  mentions s (obj fs) = names s (get "queueName" (obj fs)) || mentions_children s fs
  mentions s _ = false

  pub mentions_children : String → Fields → Bool
  mentions_children s end = false
  mentions_children s (field k v fs) =
      let rest = mentions_children s fs in if str_eq k "children" then mentions_array s v else rest

  pub mentions_array : String → Value → Bool
  mentions_array s (arr vs) = mentions_items s vs
  mentions_array s _ = false

  pub mentions_items : String → Items → Bool
  mentions_items s nil = false
  mentions_items s (cons v vs) = mentions_items s vs || mentions s v

cell-with_defaults :
    (d options : Value)
    → own_fields (get "defaultJobOptions" (with_defaults d options))
      ≡ spread (own_fields d) (own_fields (get "defaultJobOptions" options))
unfolding with_defaults get own_fields
cell-with_defaults d options = rw (find-assign "defaultJobOptions") refl

truthy-with_defaults : (d options : Value) → truthy (with_defaults d options) ≡ true
unfolding with_defaults truthy
truthy-with_defaults d options = refl

queue_options-assign :
    (s name : String) (v : Value) (q : Fields)
    → truthy v ≡ true
    → queue_options_of s (assign name v q) ≡ (if str_eq name s then v else queue_options_of s q)
unfolding or_value
queue_options-assign s name v q h = ground (arith, find-assign name s v q)

cell-stamp_queue :
    (s name : String) (d : Value) (q : Fields)
    → cell s (stamp_queue d name q)
      ≡ (if str_eq name s then spread (own_fields d) (cell s q) else cell s q)
unfolding cell
cell-stamp_queue s name d q = ground (
  arith,
  queue_options-assign s name (with_defaults d (queue_options_of name q)) q
      (truthy-with_defaults d (queue_options_of name q)),
  cell-with_defaults d (queue_options_of name q),
  str_eq_iff name s,
)

pub cell-visit :
    (s : String) (d job : Value) (q : Fields)
    → cell s (visit d job q)
      ≡ (if names s (get "queueName" job) then spread (own_fields d) (cell s q) else cell s q)
unfolding visit
cell-visit s d job q = cell-stamp_named s d (get "queueName" job) q
  where
    cell-stamp_named :
        (s : String) (d name : Value) (q : Fields)
        → cell s (stamp_named d name q)
          ≡ (if names s name then spread (own_fields d) (cell s q) else cell s q)
    cell-stamp_named s d (str name) q = ground (arith, cell-stamp_queue s name d q)
    cell-stamp_named s d undefined q = refl
    cell-stamp_named s d null q = refl
    cell-stamp_named s d (bool b) q = refl
    cell-stamp_named s d (num n) q = refl
    cell-stamp_named s d (arr vs) q = refl
    cell-stamp_named s d (obj fs) q = refl
    cell-stamp_named s d (failure k m) q = refl

-- All options of the queue `s`.
abbrev pub options_in : String → Fields → Fields
options_in s queues_options = own_fields (queue_options_of s queues_options)

options-with_defaults :
    (j : String) (d options : Value)
    → lookup j (own_fields (with_defaults d options)) ≡ (
        if str_eq "defaultJobOptions" j
        then some (obj (own_fields (get "defaultJobOptions" (with_defaults d options))))
        else lookup j (own_fields options))
options-with_defaults j d options = rw (cell-with_defaults d options) (
    unfold with_defaults own_fields in
    lookup-assign "defaultJobOptions" j
      (obj (spread (own_fields d) (own_fields (get "defaultJobOptions" options))))
      (own_fields options))

options-stamp_queue :
    (s j name : String) (d : Value) (q : Fields)
    → lookup j (options_in s (stamp_queue d name q)) ≡ (
        if str_eq name s && str_eq "defaultJobOptions" j
        then some (obj (cell s (stamp_queue d name q)))
        else lookup j (options_in s q))
unfolding cell
options-stamp_queue s j name d q =
    let assigned =
      queue_options-assign s name (with_defaults d (queue_options_of name q)) q
        (truthy-with_defaults d (queue_options_of name q)) in
    elim (Bool-cases (str_eq name s)) [
      | inl mine ↦
          let same : name ≡ s = (str_eq_iff name s).0 mine in
          rw (assigned, mine) (rw same (options-with_defaults j d (queue_options_of s q)))
      | inr other ↦ rw (assigned, other) refl
    ]

pub options-visit :
    (s j : String) (d job : Value) (q : Fields)
    → lookup j (options_in s (visit d job q)) ≡ (
        if names s (get "queueName" job) && str_eq "defaultJobOptions" j
        then some (obj (cell s (visit d job q)))
        else lookup j (options_in s q))
unfolding visit
options-visit s j d job q = options-stamp_named (get "queueName" job)
  where
    options-stamp_named :
        (name : Value)
        → lookup j (options_in s (stamp_named d name q)) ≡ (
            if names s name && str_eq "defaultJobOptions" j
            then some (obj (cell s (stamp_named d name q)))
            else lookup j (options_in s q))
    options-stamp_named (str name) = elim (Bool-cases (str_eq name "")) [
      | inl blank ↦ rw blank refl
      | inr given ↦ rw given (options-stamp_queue s j name d q)
    ]
    options-stamp_named undefined = refl
    options-stamp_named null = refl
    options-stamp_named (bool b) = refl
    options-stamp_named (num n) = refl
    options-stamp_named (arr vs) = refl
    options-stamp_named (obj fs) = refl
    options-stamp_named (failure k m) = refl
