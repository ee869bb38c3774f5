-- ===== src/Nodes/Lifecycle/Closed.antt =====
-- bull-queue.js: the close of a run node, with its acknowledgements and its worker.
use node_red_contrib_bull.Prelude.{
  String, ℕ, ◌≡◌, true, not, ◌&&◌, List, All, some, ltb, str_eq, str_eq_iff, if◌then◌else◌, arith,
  Bool-cases, inl, inr,
}
use node_red_contrib_bull.Acknowledgements.{Entry, Registry, reject, settled, is_some}
use node_red_contrib_bull.Acknowledgements.Invariant.{IsValid}
use node_red_contrib_bull.Acknowledgements.Closing.{reject_by_run_node-cell}
use node_red_contrib_bull.Nodes.Resources.{Settings, fresh, Request, serve_all}
use node_red_contrib_bull.Nodes.Resources.Counts.{count, owned}
use node_red_contrib_bull.Nodes.Resources.Handed.{succeeds, serve_all-IsHeld, fresh-IsHeld}
use node_red_contrib_bull.Nodes.Resources.Released.{release_resource-count}
use node_red_contrib_bull.Nodes.Lifecycle.{closed_error, close_run_node}

-- The entry after its run node closed.
abbrev rejected : String → Entry → Entry
rejected node e =
    if str_eq e.run_node_id node && not (is_some e.settlement)
    then settled (reject closed_error) e
    else e

rejected_settles :
    (node : String) (e : Entry) → e.run_node_id ≡ node → is_some (rejected node e).settlement ≡ true
rejected_settles node e mine =
    let own : str_eq e.run_node_id node ≡ true = (str_eq_iff e.run_node_id node).1 mine in
    elim (Bool-cases (is_some e.settlement)) [
      | inl done ↦ ground (arith, done, own)
      | inr unsettled ↦ ground (arith, unsettled, own)
    ]

-- When a run node closes, after any requests to its configuration node, and with a well-formed registry, each of its
-- acknowledgements is settled, and its worker has been handed over to be closed, once, and is not among the
-- resources any more, so that the close of the configuration node does not close it again. On Redis the
-- constructors of BullMQ are assumed not to throw.
pub close_run_node-count :
    (minimum_version recommended_version : String) (settings : Settings) (qs : List Request)
    (node : String) (worker i : ℕ) (e : Entry) (r : Registry)
    → All (λ q. succeeds settings q ≡ true) qs
    → IsValid r
    → r.cell i ≡ some e
    → e.run_node_id ≡ node
    → let s = serve_all minimum_version recommended_version settings fresh qs in
      let after = close_run_node node worker r s in
      (e' : Entry) × (after.0.cell i ≡ some e')
      × (is_some e'.settlement ≡ true)
      × (count (owned worker) after.1.resources ≡ 0)
      × (count (owned worker) after.1.handed ≡ (if ltb worker s.constructed then 1 else 0))
unfolding close_run_node
close_run_node-count minimum_version recommended_version settings qs node worker i e r fine v at
      mine =
    let s = serve_all minimum_version recommended_version settings fresh qs in
    let h =
      serve_all-IsHeld minimum_version recommended_version settings fresh qs fine
        (fresh-IsHeld minimum_version recommended_version settings) in
    let (gone, given) = release_resource-count settings worker s h in
    (
      rejected node e,
      reject_by_run_node-cell node closed_error i e r v at,
      rejected_settles node e mine,
      gone,
      given,
    )
