-- ===== src/Nodes/Deployment/Isolation.antt =====
-- In a deployment, the close of a node leaves the resources of the others alone.
use node_red_contrib_bull.Prelude.{
  ℕ, ◌+◌, String, ◌≡◌, refl, Bool, true, false, List, [], ◌∷◌, Option, some, ◌==◌, arith,
  if◌then◌else◌, Option-cases, Bool-cases, inl, inr, subst, ap, ◌∙◌,
}
use node_red_contrib_bull.Nodes.Resources.{
  Settings, Tracked, Server, take_owner, release_taken, release_resource,
}
use node_red_contrib_bull.Nodes.Resources.Counts.{
  count, count-append, owned, Balanced, take_owner-Balanced,
}
use node_red_contrib_bull.Nodes.Resources.Released.{Takes, take_owner-Takes}
use node_red_contrib_bull.Nodes.Deployment.{
  Node, Deployment, undeployed, Event, closes_node, step, run,
}
use node_red_contrib_bull.Nodes.Deployment.Separation.{owner_at, IsSeparated}
use node_red_contrib_bull.Nodes.Deployment.Separation.Runs.{run-IsSeparated, undeployed-IsSeparated}

count-other : (k : ℕ) (t : Tracked) (n : ℕ) → owned k t ≡ false → n + count (owned k) (t ∷ []) ≡ n
unfolding count
count-other k t n theirs = rw theirs (omega arith)

release_resource-others :
    (owner k : ℕ) (s : Server)
    → owner == k ≡ false
    → (count (owned k) (release_resource owner s).resources ≡ count (owned k) s.resources)
      × (count (owned k) (release_resource owner s).handed ≡ count (owned k) s.handed)
unfolding release_resource release_taken
release_resource-others owner k s other = elim (Option-cases (take_owner owner s.resources)) [
  | inl missing ↦ (rw missing refl, rw missing refl)
  | inr ((t, rest), found) ↦
      let mine : owned owner t ≡ true =
        subst (λ o. Takes owner o s.resources) found (take_owner-Takes owner s.resources) in
      let theirs : owned k t ≡ false = ground (arith, mine) in
      let taken : count (owned k) s.resources
          ≡ (if owned k t then 1 else 0) + count (owned k) rest =
        subst (λ o. Balanced (owned k) o s.resources) found
          (take_owner-Balanced (owned k) owner s.resources) in
      (
        rw found (ground (arith, theirs, taken)),
        rw found (count-append (owned k) s.handed (t ∷ []) ∙ count-other k t _ theirs),
      )
]

-- Who uses a resource: a node, or the command nodes together.
pub data User : Type 0 where
  node_user : ℕ → User
  command_users : User

abbrev pub is_node : ℕ → User → Bool
is_node i (node_user j) = i == j
is_node i command_users = false

abbrev pub used_by : User → Deployment → Option ℕ
used_by (node_user i) d = owner_at (d.node i)
used_by command_users d = d.server.queue

equal : (a b : ℕ) → a == b ≡ true → a ≡ b
equal a b h = ground arith

apart :
    (d : Deployment) (i : ℕ) (n : Node) (u : User) (k : ℕ)
    → IsSeparated d
    → d.node i ≡ some n
    → is_node i u ≡ false
    → used_by u d ≡ some k
    → n.resource.owner == k ≡ false
unfolding IsSeparated
apart d i n (node_user j) k h at other uses = elim (Bool-cases (n.resource.owner == k)) [
  | inl same ↦
      let mine : owner_at (d.node i) ≡ some k =
        ap owner_at at ∙ ap some (equal n.resource.owner k same) in
      absurd (ground (arith, h.distinct i j k mine uses))
  | inr different ↦ different
]
apart d i n command_users k h at other uses = elim (Bool-cases (n.resource.owner == k)) [
  | inl same ↦
      let mine : owner_at (d.node i) ≡ some k =
        ap owner_at at ∙ ap some (equal n.resource.owner k same) in
      absurd (h.shared i k mine uses)
  | inr different ↦ different
]

module _ (minimum_version recommended_version : String) (settings : Settings) where
  -- In a deployment, when a run, events or flow node closes, the resource of every other node and the queue of the command
  -- nodes stay in the Map of the configuration node as they are, and are not handed over to be closed with it.
  pub closes_node-others :
      (es : List Event) (i : ℕ) (u : User) (k : ℕ)
      → is_node i u ≡ false
      → used_by u (run minimum_version recommended_version settings undeployed es) ≡ some k
      → let d = run minimum_version recommended_version settings undeployed es in
        let after = step minimum_version recommended_version settings d (closes_node i) in
        (count (owned k) after.server.resources ≡ count (owned k) d.server.resources)
        × (count (owned k) after.server.handed ≡ count (owned k) d.server.handed)
  unfolding step
  closes_node-others es i u k other uses =
      let d = run minimum_version recommended_version settings undeployed es in
      let separated =
        run-IsSeparated minimum_version recommended_version settings undeployed es
          undeployed-IsSeparated in
      elim (Option-cases (d.node i)) [
        | inl absent ↦ (rw absent refl, rw absent refl)
        | inr (n, at) ↦ rw at (
            release_resource-others n.resource.owner k d.server
              (apart d i n u k separated at other uses))
      ]
