-- ===== src/Nodes/Deployment/Failing.antt =====
-- How often the failures of a deployment are reported.
use node_red_contrib_bull.Prelude.{
  ℕ, String, ◌≡◌, ◌≤◌, true, false, ◌&&◌, List, ◌∷◌, some, arith, All, All-implies,
}
use node_red_contrib_bull.Js.Value.{Value, ErrorClass, failure}
use node_red_contrib_bull.Nodes.Failures.{describe_backend_failure}
use node_red_contrib_bull.Nodes.Backend.{Backend, initial, report_backend_failure}
use node_red_contrib_bull.Nodes.Backend.Reports.{
  count, IsLatched, initial-IsLatched, step-IsLatched, latched_count, reported_once,
}
use node_red_contrib_bull.Nodes.Backend
use node_red_contrib_bull.Nodes.Backend.Reports
use node_red_contrib_bull.Nodes.Resources.{Settings}
use node_red_contrib_bull.Nodes.Startup
use node_red_contrib_bull.Nodes.Startup.{Starting}
use node_red_contrib_bull.Nodes.Lifecycle.{step_kind}
use node_red_contrib_bull.Nodes.Deployment.{Node, undeployed, Event, node_event, deliver, step, run}
use node_red_contrib_bull.Nodes.Deployment.Backends.{closes, run-keeps, deliver-keeps}

module _ (minimum_version recommended_version : String) (settings : Settings) where
  keep_latch :
      (b : Backend) (e : Backend.Event)
      → Reports.closes_node e && true ≡ false
      → IsLatched b
      → IsLatched (Backend.step minimum_version recommended_version b e)
  keep_latch b e stays h = step-IsLatched minimum_version recommended_version b e (ground arith) h

  pub run-IsLatched :
      (es : List Event)
      → All (λ e. closes e ≡ false) es
      → IsLatched (run minimum_version recommended_version settings undeployed es).server.backend
  run-IsLatched es stays =
      run-keeps minimum_version recommended_version settings IsLatched false keep_latch undeployed
        es
        (All-implies (λ e. closes e ≡ false) (λ e. closes e && true ≡ false) es
          (λ e h. ground arith) stays)
        initial-IsLatched

  -- In a deployment whose configuration node does not close, whatever nodes are made and closed, and whatever happens to
  -- them, to their resources and to the backend, no category of failure is reported more than once.
  pub run-once :
      (es : List Event) (category : String)
      → All (λ e. closes e ≡ false) es
      → count category
          (run minimum_version recommended_version settings undeployed es).server.backend.reported
        ≤ 1
  run-once es category stays = latched_count category _ (run-IsLatched es stays)

  told_once :
      (kind : ErrorClass) (m : String) (told old : List Value) (b : Backend)
      → told ≡ failure kind m ∷ old
      → IsLatched b
      → count
          (describe_backend_failure minimum_version recommended_version kind m).category
          (deliver minimum_version recommended_version settings told b).reported
        ≡ 1
  unfolding deliver report_backend_failure
  told_once kind m told old b same h = rw same (
      reported_once (describe_backend_failure minimum_version recommended_version kind m) _ (
        deliver-keeps minimum_version recommended_version settings IsLatched false keep_latch old b
          h))

  -- In a deployment whose configuration node does not close, a run, events or flow node that gives a failure to the
  -- configuration node, as it starts, has it reported, exactly once for the category of the failure, whatever nodes
  -- failed for the same reason before.
  pub step-once :
      (es : List Event) (i : ℕ) (n : Node) (e : Startup.Event) (kind : ErrorClass) (m : String)
      → All (λ e. closes e ≡ false) es
      → (run minimum_version recommended_version settings undeployed es).node i ≡ some n
      → (step_kind settings n.kind n.starting e).told_owner ≡ failure kind m ∷ n.starting.told_owner
      → count
          (describe_backend_failure minimum_version recommended_version kind m).category
          (step minimum_version recommended_version settings
            (run minimum_version recommended_version settings undeployed es)
            (node_event i e)).server.backend.reported
        ≡ 1
  unfolding step
  step-once es i n e kind m stays at tells =
      rw at (told_once kind m _ n.starting.told_owner _ tells (run-IsLatched es stays))
