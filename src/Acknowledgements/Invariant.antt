-- ===== src/Acknowledgements/Invariant.antt =====
-- Well-formedness of the registry, kept by every operation.
use node_red_contrib_bull.Prelude.{
  ℕ, ◌<◌, String, ◌≡◌, refl, true, false, none, some, arith, ◌==◌, str_eq, str_eq_iff, inl, inr,
  Option-cases, Bool-cases,
}
use node_red_contrib_bull.Js.Number.{Number}
use node_red_contrib_bull.Acknowledgements.{
  Settlement, Context, Entry, Registry, empty, update, lookup, remove, settled, settle_new, settle,
  new_id, new_entry, create, wait, is_some,
}
use node_red_contrib_bull.Acknowledgements.Settling.{lookup-remove, lookup-insert, settle_cases}

-- The Map holds exactly the entries that are not settled, each under its own id; a settled entry has
-- no timer running and no listener attached; and whoever waits has the settlement, once there is one.
pub record IsValid (r : Registry) : Type 0 where
  pub bounded : (i : ℕ) (e : Entry) → r.cell i ≡ some e → i < r.next
  pub live :
      (id : String) (i : ℕ)
      → lookup id r.entries ≡ some i
      → (e : Entry) × (r.cell i ≡ some e) × (e.settlement ≡ none) × (e.ack_id ≡ id)
  pub registered :
      (i : ℕ) (e : Entry)
      → r.cell i ≡ some e
      → e.settlement ≡ none
      → lookup e.ack_id r.entries ≡ some i
  pub quiet :
      (i : ℕ) (e : Entry)
      → r.cell i ≡ some e
      → is_some e.settlement ≡ true
      → (e.timer ≡ none) × (e.listening ≡ false)
  pub delivered :
      (i : ℕ) (e : Entry)
      → r.cell i ≡ some e
      → (e.waited ≡ true → e.outcome ≡ e.settlement) × (e.waited ≡ false → e.outcome ≡ none)

pub empty-IsValid : IsValid empty
unfolding lookup
empty-IsValid = record {
  bounded = λ i e h. cc;
  live = λ id i h. cc;
  registered = λ i e h. cc;
  quiet = λ i e h. cc;
  delivered = λ i e h. cc;
}

-- An open entry is settled.
module _ (i : ℕ) (s : Settlement) (e : Entry) (r : Registry) (v : IsValid r)
    (found : r.cell i ≡ some e) (unsettled : e.settlement ≡ none) where
  settle_new-live :
      (id : String) (j : ℕ)
      → lookup id (remove e.ack_id r.entries) ≡ some j
      → (f : Entry) × (update r.cell i (settled s e) j ≡ some f)
        × (f.settlement ≡ none)
        × (f.ack_id ≡ id)
  settle_new-live id j h =
      let old : (str_eq e.ack_id id ≡ false) × (lookup id r.entries ≡ some j) =
        ground (arith, lookup-remove e.ack_id id r.entries) in
      let (f, at, unsettled_f, named) = v.live id j old.1 in
      (f, ground (arith, str_eq_iff e.ack_id id), unsettled_f, named)

  settle_new-registered :
      (j : ℕ) (f : Entry)
      → update r.cell i (settled s e) j ≡ some f
      → f.settlement ≡ none
      → lookup f.ack_id (remove e.ack_id r.entries) ≡ some j
  settle_new-registered j f h o = ground (
    arith,
    lookup-remove e.ack_id f.ack_id r.entries,
    str_eq_iff e.ack_id f.ack_id,
    v.registered j f,
    v.registered i e found unsettled,
  )

  settle_new-IsValid : IsValid (settle_new i s e r)
  settle_new-IsValid = record {
    bounded = λ j f h. ground (arith, v.bounded j f, v.bounded i e found);
    live = settle_new-live;
    registered = settle_new-registered;
    quiet = λ j f h o. ground (arith, v.quiet j f);
    delivered = λ j f h. ground (arith, v.delivered j f, v.delivered i e found);
  }

pub settle-IsValid : (i : ℕ) (s : Settlement) (r : Registry) → IsValid r → IsValid (settle i s r)
settle-IsValid i s r v = elim (settle_cases i s r) [
  | inl same ↦ rw same v
  | inr (e, found, unsettled, new) ↦ rw new (settle_new-IsValid i s e r v found unsettled)
]

-- An entry is added under an id that the Map does not hold.
module _ (c : Context) (timeout_ms : Number) (now : ℕ) (random : String) (r : Registry)
    (v : IsValid r) (fresh : lookup (new_id c now random) r.entries ≡ none) where
  create-live :
      (id : String) (j : ℕ)
      → lookup id (create c timeout_ms now random r).entries ≡ some j
      → (f : Entry) × ((create c timeout_ms now random r).cell j ≡ some f)
        × (f.settlement ≡ none)
        × (f.ack_id ≡ id)
  unfolding create new_entry
  create-live id j h = elim (Bool-cases (str_eq (new_id c now random) id)) [
    | inl mine ↦ (
      new_entry c timeout_ms (new_id c now random),
      ground (arith, lookup-insert (new_id c now random) id r.next r.entries),
      refl,
      (str_eq_iff _ id).0 mine,
    )
    | inr other ↦
        let (f, at, unsettled, named) =
          v.live id j (ground (arith, lookup-insert (new_id c now random) id r.next r.entries)) in
        (f, ground (arith, v.bounded j f at), unsettled, named)
  ]

  pub create-IsValid : IsValid (create c timeout_ms now random r)
  unfolding create new_entry
  create-IsValid = record {
    bounded = λ j f h. ground (arith, v.bounded j f);
    live = create-live;
    registered = λ j f h o. ground (
      arith,
      v.registered j f,
      lookup-insert (new_id c now random) f.ack_id r.next r.entries,
      str_eq_iff (new_id c now random) f.ack_id,
    );
    quiet = λ j f h o. ground (arith, v.quiet j f);
    delivered = λ j f h. ground (arith, v.delivered j f);
  }

abbrev waiting : Entry → Entry
waiting e = record e { waited = true; outcome = e.settlement }

waited-live :
    (i : ℕ) (e : Entry) (r : Registry)
    → IsValid r
    → r.cell i ≡ some e
    → (id : String) (j : ℕ) → lookup id r.entries ≡ some j
    → (f : Entry) × (update r.cell i (waiting e) j ≡ some f)
      × (f.settlement ≡ none)
      × (f.ack_id ≡ id)
waited-live i e r v found id j h = elim (Bool-cases (i == j)) [
  | inl same ↦
      let (f, at, unsettled, named) = v.live id j h in
      (waiting e, rw same, ground arith, ground arith)
  | inr other ↦ let (f, at, unsettled, named) = v.live id j h in (f, rw other at, unsettled, named)
]

pub wait-IsValid : (i : ℕ) (r : Registry) → IsValid r → IsValid (wait i r)
unfolding wait
wait-IsValid i r v = elim (Option-cases (r.cell i)) [
  | inl missing ↦ rw missing v
  | inr (e, found) ↦ rw found (record {
    bounded = λ j f h. ground (arith, v.bounded j f, v.bounded i e found);
    live = λ id j h. waited-live i e r v found id j h;
    registered = λ j f h o. ground (arith, v.registered j f, v.registered i e found);
    quiet = λ j f h o. ground (arith, v.quiet j f, v.quiet i e found);
    delivered = λ j f h. ground (arith, v.delivered j f);
  })
]
