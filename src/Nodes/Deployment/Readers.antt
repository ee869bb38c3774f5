-- ===== src/Nodes/Deployment/Readers.antt =====
-- What the command nodes of a deployment show.
use node_red_contrib_bull.Prelude.{
  ℕ, String, ◌≡◌, true, false, ◌&&◌, List, some, arith, All, [], ◌∷◌,
}
use node_red_contrib_bull.Nodes.Backend.{Backend, has}
use node_red_contrib_bull.Nodes.Backend.Readers.{
  AreCurrent, current, step-AreCurrent, initial-AreCurrent,
}
use node_red_contrib_bull.Nodes.Resources.{Settings}
use node_red_contrib_bull.Nodes.Deployment.{undeployed, Event, run}
use node_red_contrib_bull.Nodes.Deployment.Backends.{closes, run-keeps}

any_event : (es : List Event) → All (λ e. closes e && false ≡ false) es
any_event [] = tt
any_event (e ∷ es) = (ground arith, any_event es)

told_current :
    (i : ℕ) (b : Backend) → AreCurrent b → has i b.readers ≡ true → b.told i ≡ some b.status
told_current i b (current h) reads = h i reads

-- In a deployment, whatever happens to it, a command node that reads the status of the backend was last told the status
-- that the configuration node has now, whether it began to read before or after the backend was observed.
pub run-told :
    (minimum_version recommended_version : String) (settings : Settings) (es : List Event) (i : ℕ)
    → has i (run minimum_version recommended_version settings undeployed es).server.backend.readers
      ≡ true
    → (run minimum_version recommended_version settings undeployed es).server.backend.told i
      ≡ some (run minimum_version recommended_version settings undeployed es).server.backend.status
run-told low high settings es i = told_current i _ (
    run-keeps low high settings AreCurrent true (λ b e stays. step-AreCurrent low high b e)
      undeployed es (any_event es) initial-AreCurrent)
