-- ===== src/Serialization/Laws.antt =====
-- What lib/serialization.js lets out.
use node_red_contrib_bull.Prelude.{
  String, ◌≡◌, refl, true, false, not, ◌&&◌, List, [], ◌∷◌, some, arith, str_eq, str_eq_iff, ap,
  ◌∙◌, Bool-cases, inl, inr, if◌then◌else◌, All,
}
use node_red_contrib_bull.Js.Text.{elem}
use node_red_contrib_bull.Js.Value.{
  Value, undefined, null, bool, num, str, arr, obj, failure, Items, nil, cons, Fields, end, field,
  truthy, is_undefined, is_array,
}
use node_red_contrib_bull.Js.Objects.{get, find, lookup, lookup-assign}
use node_red_contrib_bull.Serialization.{
  copy_field, copy_from, copy_known_fields, job_fields, serialize_job, flow_node,
  serialize_flow_job, serialize_children, serialize_array, serialize_items,
}

-- Assignment of the defined properties, for every name at once.
lookup-copy_from :
    (k : String) (source : Value) (names : List String) (result : Fields)
    → lookup k (copy_from source names result) ≡ (
        if elem k names && not (is_undefined (get k source))
        then some (get k source)
        else lookup k result)
unfolding copy_from elem
lookup-copy_from k source [] result = refl
lookup-copy_from k source (name ∷ names) result = ground (
  arith,
  lookup-copy_from k source names (copy_field source name result),
  lookup-assign name k (get name source) result,
  str_eq_iff k name,
  str_eq_iff name k,
)

get-copy_known_fields :
    (k : String) (source : Value) (names : List String)
    → truthy source ≡ true
    → get k (copy_known_fields source names) ≡ (if elem k names then get k source else undefined)
unfolding copy_known_fields
get-copy_known_fields k source names h = ground (arith, lookup-copy_from k source names end)

-- The serialized form of a job that is truthy has, of every name, what the job has if the name is
-- one of the eighteen known properties, and nothing otherwise: so no lock token and no method of the
-- job.
pub get-serialize_job :
    (k : String) (job : Value)
    → truthy job ≡ true
    → get k (serialize_job job) ≡ (if elem k job_fields then get k job else undefined)
unfolding serialize_job
get-serialize_job k job h = rw h (get-copy_known_fields k job job_fields h)

copy_from_congr :
    (a b : Value) (names : List String) (result : Fields)
    → All (λ name. get name a ≡ get name b) names
    → copy_from a names result ≡ copy_from b names result
unfolding copy_from
copy_from_congr a b [] result h = refl
copy_from_congr a b (name ∷ names) result (e, h) =
    rw e (copy_from_congr a b names (copy_field b name result) h)

All-elem :
    (P : String → Type 0) (names all : List String)
    → ((k : String) → elem k all ≡ true → P k)
    → All (λ k. elem k all ≡ true) names
    → All P names
All-elem P [] all h _ = tt
All-elem P (k ∷ names) all h (e, r) = (h k e, All-elem P names all h r)

known : All (λ k. elem k job_fields ≡ true) job_fields
unfolding elem
known = (
  refl,
  (
    refl,
    (
      refl,
      (
        refl,
        (
          refl,
          (
            refl,
            (
              refl,
              (
                refl,
                (refl, (refl, (refl, (refl, (refl, (refl, (refl, (refl, (refl, (refl, tt)))))))))),
              ),
            ),
          ),
        ),
      ),
    ),
  ),
)

serialize_truthy : (job : Value) → truthy job ≡ true → truthy (serialize_job job) ≡ true
unfolding serialize_job copy_known_fields
serialize_truthy job h = ground arith

copy_twice :
    (job : Value)
    → truthy job ≡ true
    → truthy (serialize_job job) ≡ true
    → copy_known_fields (serialize_job job) job_fields ≡ copy_known_fields job job_fields
unfolding copy_known_fields
copy_twice job h h' =
    rw (h, h')
      (ap obj (
        copy_from_congr (serialize_job job) job job_fields end (
          All-elem (λ k. get k (serialize_job job) ≡ get k job) job_fields job_fields
            (λ k e. get-serialize_job k job h ∙ rw e refl) known)))

-- Serializing what was serialized before changes nothing, whatever the value.
pub serialize_job_idempotent : (job : Value) → serialize_job (serialize_job job) ≡ serialize_job job
unfolding serialize_job
serialize_job_idempotent job = elim (Bool-cases (truthy job)) [
  | inl h ↦
      let h' : truthy (copy_known_fields job job_fields) ≡ true =
        rw h at (serialize_truthy job h) in
      rw (h, h') (rw h at (copy_twice job h (serialize_truthy job h)))
  | inr h ↦ rw (h, h)
]

-- What a reader of a serialized job sees of the job, for every name.
abbrev pub IsView : Value → Value → Type 0
IsView job view = (k : String) → get k view ≡ (if elem k job_fields then get k job else undefined)

-- The serialized form of a flow tree, as a relation between the tree and its view.
mutual
  pub data FlowView : Value → Value → Type 0 where
    absent : {f : Value} → truthy f ≡ false → FlowView f f
    node :
        {f job children : Value}
        → truthy f ≡ true
        → IsView (get "job" f) job
        → ChildrenView (get "children" f) children
        → FlowView f (flow_node job children)

  pub data ChildrenView : Value → Value → Type 0 where
    leaf : {c : Value} → is_array c ≡ false → ChildrenView c undefined
    branch : {vs ws : Items} → EachView vs ws → ChildrenView (arr vs) (arr ws)

  pub data EachView : Items → Items → Type 0 where
    done : EachView nil nil
    each :
        {v w : Value} {vs ws : Items}
        → FlowView v w
        → EachView vs ws
        → EachView (cons v vs) (cons w ws)

get_falsy : (k : String) (v : Value) → truthy v ≡ false → get k v ≡ undefined
unfolding truthy get
get_falsy k (obj fs) h = cc
get_falsy k (failure c m) h = cc
get_falsy k _ h = refl

serialize_job-IsView : (job : Value) → IsView job (serialize_job job)
unfolding serialize_job
serialize_job-IsView job k = elim (Bool-cases (truthy job)) [
  | inl h ↦ get-serialize_job k job h
  | inr h ↦ rw h (ground (arith, get_falsy k job h))
]

undefined-IsView : IsView undefined undefined
unfolding get
undefined-IsView k = ground arith

-- A value with none of the two properties.
bare_lem :
    (v : Value)
    → get "job" v ≡ undefined
    → get "children" v ≡ undefined
    → FlowView v (if truthy v then flow_node undefined undefined else v)
unfolding is_array
bare_lem v j c = elim (Bool-cases (truthy v)) [
  | inl h ↦ rw h (node h (rw j undefined-IsView) (rw c (leaf {c = undefined} refl)))
  | inr h ↦ rw h (absent h)
]

field_lem :
    (k : String) (v : Value) (fs : Fields)
    → ChildrenView v (serialize_array v)
    → ChildrenView (find "children" fs) (serialize_children fs)
    → ChildrenView (find "children" (field k v fs)) (serialize_children (field k v fs))
unfolding find serialize_flow_job
field_lem k v fs here later = elim (Bool-cases (str_eq k "children")) [
  | inl h ↦ rw h here
  | inr h ↦ rw h later
]

mutual
  unfolding serialize_flow_job truthy is_array get

  flow_lem : (f : Value) → FlowView f (serialize_flow_job f)
  flow_lem (obj fs) = node refl (serialize_job-IsView (find "job" fs)) (children_lem fs)
  flow_lem undefined = absent refl
  flow_lem null = absent refl
  flow_lem (bool b) = bare_lem (bool b) refl refl
  flow_lem (num n) = bare_lem (num n) refl refl
  flow_lem (str s) = bare_lem (str s) refl refl
  flow_lem (arr vs) = bare_lem (arr vs) refl refl
  flow_lem (failure c m) = bare_lem (failure c m) refl refl

  children_lem : (fs : Fields) → ChildrenView (find "children" fs) (serialize_children fs)
  children_lem end = leaf refl
  children_lem (field k v fs) = field_lem k v fs (array_lem v) (children_lem fs)

  array_lem : (v : Value) → ChildrenView v (serialize_array v)
  array_lem (arr vs) = branch (items_lem vs)
  array_lem _ = leaf refl

  items_lem : (vs : Items) → EachView vs (serialize_items vs)
  items_lem nil = done
  items_lem (cons v vs) = each (flow_lem v) (items_lem vs)

-- The serialized tree has the shape of the tree: at every depth a node shows its job through the
-- known properties only, children that are an array are serialized one by one and in order, and
-- nothing else of a node is let out.
pub serialize_flow_job-FlowView : (f : Value) → FlowView f (serialize_flow_job f)
serialize_flow_job-FlowView f = flow_lem f
