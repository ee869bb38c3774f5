-- ===== src/Nodes/Queues/Merge.antt =====
-- Whose options a queue of a flow gets from `withFlowJobDefaults` of bull-queue.js.
use node_red_contrib_bull.Prelude.{
  ◌∙◌, str_eq, String, ◌≡◌, refl, Bool, true, false, not, ◌&&◌, ◌||◌, some, arith, str_eq,
  if◌then◌else◌, Bool-cases, inl, inr, subst,
}
use node_red_contrib_bull.Js.Value.{
  Value, undefined, null, bool, num, str, arr, obj, failure, Items, nil, cons, Fields, end, field,
  truthy, is_object,
}
use node_red_contrib_bull.Js.Objects.{
  lookup-assign, get, lookup, is_some, own_fields, spread, assign,
}
use node_red_contrib_bull.Js.Objects.Laws.{IsObject, find-assign, lookup-spread, spread-IsObject}
use node_red_contrib_bull.Nodes.Queues.{visit, options_of, with_flow_job_defaults}
use node_red_contrib_bull.Nodes.Queues.Loop.{
  walk, walk_children, walk_array, walk_items, with_flow_job_defaults-walk,
}
use node_red_contrib_bull.Nodes.Queues.Visits.{
  options_in, options-visit, cell, names, mentions, mentions_children, mentions_array,
  mentions_items, cell-visit,
}

-- The options of the queues, in the options of a flow.
abbrev pub queues_of : Value → Fields
queues_of options = own_fields (get "queuesOptions" (options_of options))

-- What has become of the options `base` of a queue: they are as they were, or the default options `ds`
-- stand behind them.
data Cell (ds base : Fields) : Bool → Fields → Type 0 where
  untouched : Cell ds base false base
  merged :
      {c : Fields}
      → IsObject c
      → ((k : String)
          → lookup k c ≡ (if is_some (lookup k base) then lookup k base else lookup k ds))
      → Cell ds base true c

Cell-spread :
    (ds base : Fields) (b : Bool) (c : Fields)
    → IsObject ds
    → IsObject base
    → Cell ds base b c
    → Cell ds base true (spread ds c)
Cell-spread ds base false c u v untouched =
    merged (spread-IsObject ds base u) (λ k. lookup-spread k ds base v)
Cell-spread ds base true c u v (merged w h) =
    merged (spread-IsObject ds c u) (λ k. ground (arith, lookup-spread k ds c w, h k))

or_assoc : (a b c : Bool) → ((a || b) || c) ≡ (a || (b || c))
or_assoc true b c = refl
or_assoc false b c = refl

or_true : (a : Bool) → (a || true) ≡ true
or_true true = refl
or_true false = refl

or_false : (a : Bool) → (a || false) ≡ a
or_false true = refl
or_false false = refl

-- All options of a queue: the options for its jobs are replaced if a job of it was visited, and the others are as
-- they were.
abbrev Rest : String → Fields → Bool → Fields → Type 0
Rest s q b after =
    (j : String)
    → lookup j (options_in s after) ≡ (
        if b && str_eq "defaultJobOptions" j
        then some (obj (cell s after))
        else lookup j (options_in s q))

visit-Rest :
    (s : String) (start : Fields) (d job : Value) (q : Fields) (b : Bool)
    → Rest s start b q
    → Rest s start (b || names s (get "queueName" job)) (visit d job q)
visit-Rest s start d job q b h j = elim (Bool-cases (names s (get "queueName" job))) [
  | inl named ↦ elim (Bool-cases (str_eq "defaultJobOptions" j)) [
    | inl mine ↦ rw (options-visit s j d job q) (rw (named, mine, or_true b) refl)
    | inr other ↦
        rw (options-visit s j d job q) (rw (named, other, or_true b) (h j ∙ kept b j other))
  ]
  | inr apart ↦
      let same : cell s (visit d job q) ≡ cell s q = cell-visit s d job q ∙ chosen apart in
      rw (options-visit s j d job q) (rw (same, apart, or_false b) (h j))
]
  where
    kept :
        (b : Bool) (j : String)
        → str_eq "defaultJobOptions" j ≡ false
        → (if b && str_eq "defaultJobOptions" j
            then some (obj (cell s q))
            else lookup j (options_in s start))
          ≡ lookup j (options_in s start)
    kept true j other = rw other refl
    kept false j other = refl

    chosen :
        names s (get "queueName" job) ≡ false
        → (if names s (get "queueName" job) then spread (own_fields d) (cell s q) else cell s q)
          ≡ cell s q
    chosen apart = rw apart refl

module _ (s : String) (ds base start : Fields) (u : IsObject ds) (w : IsObject base) where
  abbrev Stands : Bool → Fields → Type 0
  Stands b q = Cell ds base b (cell s q) × Rest s start b q

  visit-Stands :
      (job : Value) (q : Fields) (b : Bool)
      → Stands b q
      → Stands (b || names s (get "queueName" job)) (visit (obj ds) job q)
  unfolding own_fields
  visit-Stands job q b (h, rest) = elim (Bool-cases (names s (get "queueName" job))) [
    | inl named ↦ (
      rw (cell-visit s (obj ds) job q, named, or_true b) (Cell-spread ds base b (cell s q) u w h),
      visit-Rest s start (obj ds) job q b rest,
    )
    | inr other ↦ (
      rw (cell-visit s (obj ds) job q, other, or_false b) h,
      visit-Rest s start (obj ds) job q b rest,
    )
  ]

  stays : (q : Fields) (b : Bool) → Stands b q → Stands (b || false) q
  stays q b h = rw (or_false b) h

  mutual
    unfolding walk mentions get

    walk-Stands :
        (v : Value) (q : Fields) (b : Bool)
        → Stands b q
        → Stands (b || mentions s v) (walk (obj ds) v q)
    walk-Stands (obj fs) q b h =
        subst (λ x. Stands x (walk_children (obj ds) fs (visit (obj ds) (obj fs) q)))
          (or_assoc b _ _)
          (children-Stands fs (visit (obj ds) (obj fs) q) _ (visit-Stands (obj fs) q b h))
    walk-Stands (arr vs) q b h = visit-Stands (arr vs) q b h
    walk-Stands (failure kind m) q b h = visit-Stands (failure kind m) q b h
    walk-Stands undefined q b h = stays q b h
    walk-Stands null q b h = stays q b h
    walk-Stands (bool _) q b h = stays q b h
    walk-Stands (num _) q b h = stays q b h
    walk-Stands (str _) q b h = stays q b h

    children-Stands :
        (fs q : Fields) (b : Bool)
        → Stands b q
        → Stands (b || mentions_children s fs) (walk_children (obj ds) fs q)
    children-Stands end q b h = stays q b h
    children-Stands (field k v fs) q b h = elim (Bool-cases (str_eq k "children")) [
      | inl here ↦ rw here (array-Stands v q b h)
      | inr other ↦ rw other (children-Stands fs q b h)
    ]

    array-Stands :
        (v : Value) (q : Fields) (b : Bool)
        → Stands b q
        → Stands (b || mentions_array s v) (walk_array (obj ds) v q)
    array-Stands (arr vs) q b h = items-Stands vs q b h
    array-Stands undefined q b h = stays q b h
    array-Stands null q b h = stays q b h
    array-Stands (bool _) q b h = stays q b h
    array-Stands (num _) q b h = stays q b h
    array-Stands (str _) q b h = stays q b h
    array-Stands (obj _) q b h = stays q b h
    array-Stands (failure _ _) q b h = stays q b h

    items-Stands :
        (vs : Items) (q : Fields) (b : Bool)
        → Stands b q
        → Stands (b || mentions_items s vs) (walk_items (obj ds) vs q)
    items-Stands nil q b h = stays q b h
    items-Stands (cons v vs) q b h =
        subst (λ x. Stands x (walk (obj ds) v (walk_items (obj ds) vs q))) (or_assoc b _ _)
          (walk-Stands v (walk_items (obj ds) vs q) _ (items-Stands vs q b h))

Cell-lookup :
    (ds base : Fields) (b : Bool) (c : Fields) (k : String)
    → Cell ds base b c
    → lookup k c ≡ (if b && not (is_some (lookup k base)) then lookup k ds else lookup k base)
Cell-lookup ds base false c k untouched = refl
Cell-lookup ds base true c k (merged w h) = ground (arith, h k)

result_queues : (q fs : Fields) → queues_of (obj (assign "queuesOptions" (obj q) fs)) ≡ q
unfolding get own_fields is_object
result_queues q fs = rw (find-assign "queuesOptions") refl

-- Where the default options, and the options for the jobs of the queue `s` that the caller gave, have no name twice,
-- `withFlowJobDefaults` returns. In what it returns, an option for the jobs of the queue is the default one if some job
-- of the flow, at any depth, is one of the queue and the caller did not set the option, and else as the
-- caller gave it, however often the queue occurs in the flow. Every option of the queue but `defaultJobOptions`, which
-- becomes that object if a job of the flow is one of the queue, is as the caller gave it; and so is
-- every option of the flow but `queuesOptions`.
pub with_flow_job_defaults-lookup :
    (flow flow_options : Value) (defaults : Fields) (s k : String)
    → IsObject defaults
    → IsObject (cell s (queues_of flow_options))
    → (r : Value) × (with_flow_job_defaults flow flow_options (obj defaults) ≡ some r)
      × (lookup k (cell s (queues_of r)) ≡ (
          if mentions s flow && not (is_some (lookup k (cell s (queues_of flow_options))))
          then lookup k defaults
          else lookup k (cell s (queues_of flow_options))))
      × (lookup k (options_in s (queues_of r)) ≡ (
          if mentions s flow && str_eq "defaultJobOptions" k
          then some (obj (cell s (queues_of r)))
          else lookup k (options_in s (queues_of flow_options))))
      × (lookup k (own_fields r) ≡ (
          if str_eq "queuesOptions" k
          then some (obj (queues_of r))
          else lookup k (own_fields (options_of flow_options))))
unfolding truthy own_fields
with_flow_job_defaults-lookup flow flow_options defaults s k u w =
    let start = queues_of flow_options in
    let q = walk (obj defaults) flow start in
    let options = own_fields (options_of flow_options) in
    let (jobs, rest) =
      walk-Stands s defaults (cell s start) start u w flow start false (untouched, λ j. refl) in
    (
      obj (assign "queuesOptions" (obj q) options),
      with_flow_job_defaults-walk flow flow_options (obj defaults) refl,
      rw (result_queues q options)
          (Cell-lookup defaults (cell s start) (mentions s flow) (cell s q) k jobs),
      rw (result_queues q options) (rest k),
      rw (result_queues q options) (lookup-assign "queuesOptions" k (obj q) options),
    )
