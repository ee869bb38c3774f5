-- ===== src/Examples/Outages.antt =====
-- A command node on PostgreSQL where the package pg is not installed, after a run node that met the same.
use node_red_contrib_bull.Prelude.{◌≡◌, refl, true, false, List, [], ◌∷◌, All}
use node_red_contrib_bull.Js.Value.{plain, ok, end}
use node_red_contrib_bull.Nodes.Resources.{Settings, throws}
use node_red_contrib_bull.Nodes.Lifecycle.{open_command_node}
use node_red_contrib_bull.Nodes.Deployment.{undeployed, Event, opens_run, run}
use node_red_contrib_bull.Nodes.Deployment.Backends.{closes}
use node_red_contrib_bull.Nodes.Deployment.Outages.{Reads, Served, open_command_node-Served}

abbrev postgres : Settings
postgres = record { postgres = true; telemetry = false }

abbrev earlier : List Event
earlier = opens_run end false (λ options. throws plain "npm install pg") ∷ []

stays_open : All (λ e. closes e ≡ false) earlier
stays_open = (refl, tt)

open_command_node-Served_example :
    let before = (run "16" "17" postgres undeployed earlier).server in
    let (outcome, after) =
      open_command_node "16" "17" postgres 3 true (throws plain "npm install pg") before in
    (outcome ≡ ok tt)
    × Reads "16" "17" postgres 3 after.backend
    × Served "16" "17" postgres before.queue (throws plain "npm install pg") before after
open_command_node-Served_example =
    open_command_node-Served "16" "17" postgres earlier 3 true (throws plain "npm install pg") refl
      stays_open
