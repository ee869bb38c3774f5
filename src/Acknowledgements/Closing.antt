-- ===== src/Acknowledgements/Closing.antt =====
-- `rejectByRunNode` of lib/acknowledgements.js: the acknowledgements of a run node that closes.
use node_red_contrib_bull.Prelude.{
  ℕ, String, ◌≡◌, refl, Bool, true, false, List, [], ◌∷◌, none, some, arith, ◌==◌, str_eq,
  str_eq_iff, ◌||◌, not, ◌&&◌, if◌then◌else◌, Bool-cases, Option-cases, ap, inl, inr, ℕ_discrete,
  sym, str_eq_refl,
}
use node_red_contrib_bull.Js.Value.{Value}
use node_red_contrib_bull.Acknowledgements.{
  reject, Entry, Registry, lookup, settled, reject_each, reject_by_run_node, belongs_to, is_some,
}
use node_red_contrib_bull.Acknowledgements.Settling.{reject_each-keeps}
use node_red_contrib_bull.Acknowledgements.Invariant.{IsValid}
use node_red_contrib_bull.Acknowledgements.Cells.{
  At, settle_hits, At-if, settle-At_other, settle-At_settled,
}

-- The Map's entry with this address.
abbrev occurs : ℕ → List (String × ℕ) → Bool
occurs i [] = false
occurs i ((k, j) ∷ m) = j == i || occurs i m

occurs-lookup :
    (id : String) (i : ℕ) (m : List (String × ℕ)) → lookup id m ≡ some i → occurs i m ≡ true
unfolding lookup
occurs-lookup id i [] h = cc
occurs-lookup id i ((k, j) ∷ m) h = ground (arith, occurs-lookup id i m)

reject_each-hits :
    (node : String) (error : Value) (m : List (String × ℕ)) (i : ℕ) (e : Entry) (r : Registry)
    → occurs i m ≡ true
    → At i e r
    → e.settlement ≡ none
    → e.run_node_id ≡ node
    → At i (settled (reject error) e) (reject_each node error m r)
unfolding reject_each
reject_each-hits node error [] i e r found at unsettled mine = cc
reject_each-hits node error ((k, j) ∷ m) i e r found at unsettled mine = elim (ℕ_discrete j i) [
  | yes same ↦
      let owned : belongs_to node (r.cell j) ≡ true = rw (same, at, mine) (str_eq_refl node) in
      reject_each-keeps (At i (settled (reject error) e))
        (settle-At_settled i (reject error) (settled (reject error) e) refl) node error m _
        (rw owned (rw same (settle_hits i (reject error) e r at unsettled)))
  | no other ↦
      reject_each-hits node error m i e _ (ground arith)
        (At-if i e (belongs_to node (r.cell j)) _ r
          (settle-At_other i j (reject error) e r (λ p. other (sym p)) at) at)
        unsettled mine
]

reject_each-misses :
    (node : String) (error : Value) (m : List (String × ℕ)) (i : ℕ) (e : Entry) (r : Registry)
    → At i e r
    → str_eq e.run_node_id node ≡ false
    → At i e (reject_each node error m r)
unfolding reject_each
reject_each-misses node error [] i e r at other = at
reject_each-misses node error ((k, j) ∷ m) i e r at other = elim (ℕ_discrete j i) [
  | yes same ↦ reject_each-misses node error m i e _ (rw (same, at, other) at) other
  | no apart ↦
      reject_each-misses node error m i e _
        (At-if i e (belongs_to node (r.cell j)) _ r
          (settle-At_other i j (reject error) e r (λ p. apart (sym p)) at) at)
        other
]

reject_own :
    (node : String) (error : Value) (i : ℕ) (e : Entry) (r : Registry)
    → IsValid r
    → r.cell i ≡ some e
    → e.settlement ≡ none
    → e.run_node_id ≡ node
    → (reject_by_run_node node error r).cell i ≡ some (settled (reject error) e)
unfolding reject_by_run_node
reject_own node error i e r v at unsettled mine =
    reject_each-hits node error r.entries i e r
      (occurs-lookup e.ack_id i r.entries (v.registered i e at unsettled)) at unsettled mine

-- When a run node closes, in a well-formed registry, each of its acknowledgements that is not
-- settled is failed with the node's error, and every other acknowledgement is left as it is.
pub reject_by_run_node-cell :
    (node : String) (error : Value) (i : ℕ) (e : Entry) (r : Registry)
    → IsValid r
    → r.cell i ≡ some e
    → (reject_by_run_node node error r).cell i
      ≡ some (
          if str_eq e.run_node_id node && not (is_some e.settlement)
          then settled (reject error) e
          else e)
unfolding reject_by_run_node
reject_by_run_node-cell node error i e r v at = elim (Bool-cases (str_eq e.run_node_id node)) [
  | inr other ↦ rw other (reject_each-misses node error r.entries i e r at other)
  | inl mine ↦ elim (Option-cases e.settlement) [
    | inl unsettled ↦
        let no : is_some e.settlement ≡ false = ap is_some unsettled in
        rw (mine, no) (reject_own node error i e r v at unsettled ((str_eq_iff _ _).0 mine))
    | inr (t, done) ↦
        let yes_settled : is_some e.settlement ≡ true = ap is_some done in
        rw (mine, yes_settled)
          (reject_each-keeps (At i e) (λ j s r. settle-At_settled i t e done j s r) node error
            r.entries r at)
  ]
]
