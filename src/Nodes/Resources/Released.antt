-- ===== src/Nodes/Resources/Released.antt =====
-- bull-queue.js: `releaseResource` takes a resource out of the Map.
use node_red_contrib_bull.Prelude.{
  ℕ, ◌+◌, ◌≡◌, refl, true, List, [], ◌∷◌, Option, none, some, ◌==◌, ltb, if◌then◌else◌, arith,
  Bool-cases, Option-cases, inl, inr, subst, ◌∙◌,
}
use node_red_contrib_bull.Nodes.Resources.{
  Settings, Tracked, Server, take_owner, release_taken, release_resource,
}
use node_red_contrib_bull.Nodes.Resources.Counts.{
  count, owned, total, Balanced, take_owner-Balanced, total-release,
}
use node_red_contrib_bull.Nodes.Resources.Handed.{IsHeld}

-- What is taken is the entry of the owner, if there is one.
abbrev pub Takes : ℕ → Option (Tracked × List Tracked) → List Tracked → Type 0
Takes owner none xs = count (owned owner) xs ≡ 0
Takes owner (some (t, rest)) xs = owned owner t ≡ true

pub take_owner-Takes : (owner : ℕ) (xs : List Tracked) → Takes owner (take_owner owner xs) xs
unfolding take_owner count
take_owner-Takes owner [] = refl
take_owner-Takes owner (x ∷ xs) = elim (Bool-cases (x.owner == owner)) [
  | inl here ↦ rw (here, Takes) here
  | inr other ↦ elim (Option-cases (take_owner owner xs)) [
    | inl missing ↦
        let nothing : count (owned owner) xs ≡ 0 =
          subst (λ o. Takes owner o xs) missing (take_owner-Takes owner xs) in
        rw (other, missing, Takes) (ground (arith, nothing))
    | inr ((t, rest), found) ↦
        let inner : owned owner t ≡ true =
          subst (λ o. Takes owner o xs) found (take_owner-Takes owner xs) in
        rw (other, found, Takes) inner
  ]
]

rest_of : (a b n : ℕ) → a + b ≡ n → a ≡ 0 → b ≡ n
rest_of a b n whole none_left = omega (arith, whole, none_left)

-- Where each resource has one entry at most, a resource that is released is not in the Map any more, and has
-- been handed over.
pub release_resource-count :
    (settings : Settings) (owner : ℕ) (s : Server)
    → IsHeld settings s
    → (count (owned owner) (release_resource owner s).resources ≡ 0)
      × (count (owned owner) (release_resource owner s).handed
          ≡ (if ltb owner s.constructed then 1 else 0))
unfolding total release_resource release_taken
release_resource-count settings owner s h =
    let kept = total-release (owned owner) owner s ∙ h.owners owner in
    let gone : count (owned owner) (release_resource owner s).resources ≡ 0 =
      elim (Option-cases (take_owner owner s.resources)) [
        | inl missing ↦
            rw missing
              (subst (λ o. Takes owner o s.resources) missing (take_owner-Takes owner s.resources))
        | inr ((t, rest), found) ↦
            let mine : owned owner t ≡ true =
              subst (λ o. Takes owner o s.resources) found (take_owner-Takes owner s.resources) in
            let taken : count (owned owner) s.resources
                ≡ (if owned owner t then 1 else 0) + count (owned owner) rest =
              subst (λ o. Balanced (owned owner) o s.resources) found
                (take_owner-Balanced (owned owner) owner s.resources) in
            rw found (ground (arith, mine, taken, h.owners owner))
      ] in
    (gone, rest_of _ _ _ kept gone)
