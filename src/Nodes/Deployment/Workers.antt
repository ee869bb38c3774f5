-- ===== src/Nodes/Deployment/Workers.antt =====
-- The workers of the run nodes of a deployment.
use node_red_contrib_bull.Prelude.{ℕ, ◌+◌, ◌≤◌, String, ◌≡◌, Bool, true, false, if◌then◌else◌}
use node_red_contrib_bull.Js.Value.{Value, Fields, ok}
use node_red_contrib_bull.Nodes.Fields.{worker_options_of}
use node_red_contrib_bull.Nodes.Fields.Workers.{IsAccepted}
use node_red_contrib_bull.Nodes.Resources.{Settings}
use node_red_contrib_bull.Nodes.Startup.{Starting}
use node_red_contrib_bull.Nodes.Startup.Worker.{is_waiting}
use node_red_contrib_bull.Nodes.Lifecycle.{Kind, run_node}
use node_red_contrib_bull.Nodes.Deployment

-- How often the worker was run, and may still be.
abbrev due : Starting → ℕ
due s = s.runs + (if is_waiting s.phase then 1 else 0)

-- The worker is run once at most, and on Redis never.
abbrev IsLimited : Bool → Starting → Type 0
IsLimited true s = due s ≤ 1
IsLimited false s = s.runs ≡ 0

module _ (minimum_version recommended_version : String) (settings : Settings) where
  -- What every run node has.
  abbrev IsSound : Kind → Starting → Type 0
  IsSound (run_node options) s =
      ((n : Fields) × (worker_options_of n settings.postgres ≡ ok options)
        × IsAccepted n settings.postgres options)
      × IsLimited settings.postgres s
  IsSound _ s = Unit
