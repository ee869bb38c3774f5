-- ===== src/Nodes/Inputs/Retention.antt =====
-- bull-queue.js: the options that the configuration gives to jobs reach every job that the flow node creates.
use node_red_contrib_bull.Prelude.{
  String, ◌≡◌, refl, Bool, true, false, not, ◌&&◌, ◌||◌, [], ◌∷◌, Option, none, some, arith, str_eq,
  if◌then◌else◌, Bool-cases, inl, inr, sym, subst, ◌∙◌,
}
use node_red_contrib_bull.Js.Value.{
  Value, undefined, null, bool, num, str, arr, obj, failure, Items, nil, cons, Fields, end, field,
  truthy, is_object,
}
use node_red_contrib_bull.Js.Objects.{
  find, get, lookup, own_fields, spread, assign, is_some, lookup-assign,
}
use node_red_contrib_bull.Js.Objects.Laws.{IsObject}
use node_red_contrib_bull.Js.Program.{Calls, over, first, pure, ◌>>=◌, Calls->>=}
use node_red_contrib_bull.Library.{Call, invoke, flow_producer}
use node_red_contrib_bull.Serialization.{serialize_flow_job}
use node_red_contrib_bull.Nodes.Flows.{
  stamp, stamp_children, stamp_array, stamp_items, with_bulk_flow_job_defaults,
}
use node_red_contrib_bull.Nodes.Flows.Laws.{get-with_bulk_flow_job_defaults, stamp_children-find}
use node_red_contrib_bull.Nodes.Queues.{with_flow_job_defaults}
use node_red_contrib_bull.Nodes.Queues.Visits.{cell, mentions}
use node_red_contrib_bull.Nodes.Queues.Merge.{queues_of, with_flow_job_defaults-lookup}
use node_red_contrib_bull.Nodes.Inputs.{stamp_all, add_flow, create_flows, on_flow}

-- A job that is given to BullMQ has an option.
abbrev pub has_option : String → Value → Bool
has_option k job = is_some (lookup k (own_fields (get "opts" job)))

-- Every job of a flow that is an object, at any depth, has the option in what was made of the flow.
unfoldable mutual
  pub reaches : String → Value → Value → Bool
  reaches k (obj fs) result = has_option k result && reaches_children k fs (get "children" result)
  reaches k _ result = true

  pub reaches_children : String → Fields → Value → Bool
  reaches_children k end result = true
  reaches_children k (field j v fs) result =
      let rest = reaches_children k fs result in
      let here = reaches_array k v result in if str_eq j "children" then here else rest

  pub reaches_array : String → Value → Value → Bool
  reaches_array k (arr vs) (arr results) = reaches_items k vs results
  reaches_array k (arr vs) _ = false
  reaches_array k _ result = true

  pub reaches_items : String → Items → Items → Bool
  reaches_items k nil nil = true
  reaches_items k (cons v vs) (cons r rs) = reaches k v r && reaches_items k vs rs
  reaches_items k _ _ = false

-- An option that is there stays there.
spread_keeps :
    (k : String) (base more : Fields)
    → is_some (lookup k base) ≡ true
    → is_some (lookup k (spread base more)) ≡ true
unfolding spread
spread_keeps k base end h = h
spread_keeps k base (field j v fs) h =
    spread_keeps k (assign j v base) fs (ground (arith, lookup-assign j k v base, h))

stamped_children :
    (d : Value) (fs : Fields)
    → truthy d ≡ true
    → get "children" (with_bulk_flow_job_defaults (obj fs) d) ≡ stamp_children d fs
stamped_children d fs given =
    get-with_bulk_flow_job_defaults "children" fs d given ∙ sym (stamp_children-find d fs)

stamped-has_option :
    (k : String) (defaults fs : Fields)
    → is_some (lookup k defaults) ≡ true
    → has_option k (with_bulk_flow_job_defaults (obj fs) (obj defaults)) ≡ true
unfolding truthy own_fields
stamped-has_option k defaults fs given =
    rw (get-with_bulk_flow_job_defaults "opts" fs (obj defaults) refl)
      (spread_keeps k defaults (own_fields (find "opts" fs)) given)

module _ (k : String) (defaults : Fields) (given : is_some (lookup k defaults) ≡ true) where
  mutual
    unfolding reaches stamp truthy own_fields with_bulk_flow_job_defaults

    stamp-reaches : (flow : Value) → reaches k flow (stamp (obj defaults) flow) ≡ true
    stamp-reaches (obj fs) =
        rw (stamped-has_option k defaults fs given, stamped_children (obj defaults) fs refl)
          (children-reaches fs)
    stamp-reaches (arr vs) = refl
    stamp-reaches (failure kind m) = refl
    stamp-reaches undefined = refl
    stamp-reaches null = refl
    stamp-reaches (bool b) = refl
    stamp-reaches (num n) = refl
    stamp-reaches (str s) = refl

    children-reaches :
        (fs : Fields) → reaches_children k fs (stamp_children (obj defaults) fs) ≡ true
    children-reaches end = refl
    children-reaches (field j v fs) = elim (Bool-cases (str_eq j "children")) [
      | inl here ↦ rw here (array-reaches v)
      | inr other ↦ rw other (children-reaches fs)
    ]

    array-reaches : (v : Value) → reaches_array k v (stamp_array (obj defaults) v) ≡ true
    array-reaches (arr vs) = items-reaches vs
    array-reaches (obj fs) = refl
    array-reaches (failure kind m) = refl
    array-reaches undefined = refl
    array-reaches null = refl
    array-reaches (bool b) = refl
    array-reaches (num n) = refl
    array-reaches (str s) = refl

    items-reaches : (vs : Items) → reaches_items k vs (stamp_items (obj defaults) vs) ≡ true
    items-reaches nil = refl
    items-reaches (cons v vs) = rw (stamp-reaches v) (items-reaches vs)

-- The calls that create flows, for a payload, an option and the name of a queue: with `add`, the options of the
-- queue carry the option if a job of the flow is of the queue; with `addBulk`, every job carries it.
pub data Retained (k s : String) (payload : Value) : Call → Type 0 where
  adds :
      (options : Value)
      → mentions s payload && not (is_some (lookup k (cell s (queues_of options)))) ≡ false
      → Retained k s payload (invoke flow_producer "add" (payload ∷ options ∷ []))
  adds_bulk :
      (results : Value)
      → reaches_array k payload results ≡ true
      → Retained k s payload (invoke flow_producer "addBulk" (results ∷ []))

merged_present :
    (m : Bool) (own default_value : Option Value)
    → is_some default_value ≡ true
    → m && not (is_some (if m && not (is_some own) then default_value else own)) ≡ false
merged_present true none d given = ground arith
merged_present true (some v) d given = refl
merged_present false own d given = refl

stamp_all-stamp_items :
    (d : Value) (vs : Items) → truthy d ≡ true → stamp_all d vs ≡ stamp_items d vs
unfolding stamp_items with_bulk_flow_job_defaults
stamp_all-stamp_items d nil given = refl
stamp_all-stamp_items d (cons v vs) given = rw (given, stamp_all-stamp_items d vs given) refl

module _ (k s : String) (defaults : Fields) (given : is_some (lookup k defaults) ≡ true)
    (u : IsObject defaults) where
  add_flow-Calls :
      (payload flowopts : Value)
      → IsObject (cell s (queues_of flowopts))
      → Calls
          (Retained k s payload)
          (add_flow payload (with_flow_job_defaults payload flowopts (obj defaults)))
  add_flow-Calls payload flowopts w =
      let (r, same, reached, others, own) =
        with_flow_job_defaults-lookup payload flowopts defaults s k u w in
      rw same (
        first (adds r (rw reached (merged_present (mentions s payload) _ _ given))) (λ reply. over))

  create_one-Calls :
      (payload flowopts : Value)
      → IsObject (cell s (queues_of flowopts))
      → Calls (Retained k s payload) (
          add_flow payload (with_flow_job_defaults payload flowopts (obj defaults)) >>= λ node.
          pure (serialize_flow_job node))
  create_one-Calls payload flowopts w = Calls->>= (add_flow-Calls payload flowopts w) (λ a. over)

  create_flows-Calls :
      (payload flowopts : Value)
      → IsObject (cell s (queues_of flowopts))
      → Calls (Retained k s payload) (create_flows (obj defaults) payload flowopts)
  unfolding create_flows reaches truthy stamp_items stamp_array
  create_flows-Calls (arr nil) flowopts w = over
  create_flows-Calls (arr (cons v vs)) flowopts w =
      Calls->>=
        (first
          (adds_bulk (arr (stamp_all (obj defaults) (cons v vs))) (
            subst (λ rs. reaches_array k (arr (cons v vs)) (arr rs) ≡ true)
              (sym (stamp_all-stamp_items (obj defaults) (cons v vs) refl))
              (array-reaches k defaults given (arr (cons v vs)))))
          (λ reply. over))
        (λ trees. over)
  create_flows-Calls (obj fs) flowopts w = create_one-Calls (obj fs) flowopts w
  create_flows-Calls (failure kind m) flowopts w = create_one-Calls (failure kind m) flowopts w
  create_flows-Calls undefined flowopts w = create_one-Calls undefined flowopts w
  create_flows-Calls null flowopts w = create_one-Calls null flowopts w
  create_flows-Calls (bool b) flowopts w = create_one-Calls (bool b) flowopts w
  create_flows-Calls (num n) flowopts w = create_one-Calls (num n) flowopts w
  create_flows-Calls (str t) flowopts w = create_one-Calls (str t) flowopts w

  -- Whatever the message is and whatever BullMQ replies, the flow node only calls `add` and `addBulk`, and
  -- a default job option of the configuration node reaches every job: in `addBulk`, each job at any depth
  -- of each flow carries the option, and in `add`, the options of each queue that has a job in the flow do.
  -- The objects of the default options and of the message's options of the queue have no name twice.
  pub on_flow-Calls :
      (msg : Fields)
      → IsObject (cell s (queues_of (find "flowopts" msg)))
      → Calls (Retained k s (find "payload" msg)) (on_flow (obj defaults) msg)
  unfolding on_flow
  on_flow-Calls msg w =
      elim (Bool-cases
        (not (truthy (find "payload" msg)) || not (is_object (find "payload" msg)))) [
          | inl refused ↦ rw refused over
          | inr taken ↦ rw taken (
              Calls->>= (create_flows-Calls (find "payload" msg) (find "flowopts" msg) w)
                (λ payload. over))
        ]
