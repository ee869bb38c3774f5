-- ===== src/Nodes/Resources/Counts.antt =====
-- bull-queue.js: how many entries of the configuration node are tracked or were handed over to be closed.
use node_red_contrib_bull.Prelude.{
  ℕ, ◌+◌, ◌≡◌, refl, Bool, false, List, [], ◌∷◌, ◌++◌, Option, none, some, ◌==◌, if◌then◌else◌,
  arith, Bool-cases, Option-cases, inl, inr, subst,
}
use node_red_contrib_bull.Nodes.Resources.{
  Connection, Tracked, Server, take_owner, track, release_taken, release_resource, all_reversed,
  on_close,
}

-- How many entries are of a kind.
unfoldable pub count : (Tracked → Bool) → List Tracked → ℕ
count p [] = 0
count p (t ∷ ts) = (if p t then 1 else 0) + count p ts

pub count-append :
    (p : Tracked → Bool) (xs ys : List Tracked) → count p (xs ++ ys) ≡ count p xs + count p ys
unfolding count
count-append p [] ys = omega arith
count-append p (x ∷ xs) ys = omega (arith, count-append p xs ys)

count-all_reversed :
    (p : Tracked → Bool) (xs ys : List Tracked)
    → count p (all_reversed xs ys) ≡ count p xs + count p ys
unfolding count
count-all_reversed p [] ys = omega arith
count-all_reversed p (x ∷ xs) ys = omega (arith, count-all_reversed p xs (x ∷ ys))

-- The entry of a resource, and that of a connection.
abbrev pub owned : ℕ → Tracked → Bool
owned k t = t.owner == k

abbrev holds_address : ℕ → Option Connection → Bool
holds_address a none = false
holds_address a (some c) = c.address == a

abbrev pub connected_at : ℕ → Tracked → Bool
connected_at a t = holds_address a t.connection

-- The entries that are tracked, and those that were handed over to be closed.
unfoldable pub total : (Tracked → Bool) → Server → ℕ
total p s = count p s.resources + count p s.handed

-- Taking an entry out of the Map takes one of its kind out.
abbrev pub Balanced : (Tracked → Bool) → Option (Tracked × List Tracked) → List Tracked → Type 0
Balanced p none xs = Unit
Balanced p (some (t, rest)) xs = count p xs ≡ (if p t then 1 else 0) + count p rest

pub take_owner-Balanced :
    (p : Tracked → Bool) (owner : ℕ) (xs : List Tracked) → Balanced p (take_owner owner xs) xs
unfolding take_owner count
take_owner-Balanced p owner [] = tt
take_owner-Balanced p owner (x ∷ xs) = elim (Bool-cases (x.owner == owner)) [
  | inl here ↦ rw (here, Balanced) refl
  | inr other ↦ elim (Option-cases (take_owner owner xs)) [
    | inl missing ↦ rw (other, missing, Balanced) tt
    | inr ((t, rest), found) ↦
        let inner : count p xs ≡ (if p t then 1 else 0) + count p rest =
          subst (λ o. Balanced p o xs) found (take_owner-Balanced p owner xs) in
        rw (other, found, Balanced) (omega (arith, inner))
  ]
]

pub total-release :
    (p : Tracked → Bool) (owner : ℕ) (s : Server) → total p (release_resource owner s) ≡ total p s
unfolding total release_resource release_taken count
total-release p owner s = elim (Option-cases (take_owner owner s.resources)) [
  | inl missing ↦ rw missing refl
  | inr ((t, rest), found) ↦
      let taken : count p s.resources ≡ (if p t then 1 else 0) + count p rest =
        subst (λ o. Balanced p o s.resources) found (take_owner-Balanced p owner s.resources) in
      rw found (omega (arith, taken, count-append p s.handed (t ∷ [])))
]

pub total-on_close : (p : Tracked → Bool) (s : Server) → total p (on_close s) ≡ total p s
unfolding total on_close count
total-on_close p s = omega (
  arith,
  count-append p s.handed (all_reversed s.resources []),
  count-all_reversed p s.resources [],
)

pub total-track :
    (p : Tracked → Bool) (t : Tracked) (s : Server)
    → total p (track t s) ≡ total p s + (if p t then 1 else 0)
unfolding total count
total-track p t s = omega (arith, count-append p s.resources (t ∷ []))

-- After the close, all entries were handed over.
pub closed_count : (p : Tracked → Bool) (s : Server) → count p (on_close s).handed ≡ total p s
unfolding on_close total count
closed_count p s = omega (arith, total-on_close p s)
