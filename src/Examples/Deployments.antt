-- ===== src/Examples/Deployments.antt =====
-- A configuration node whose backend fails, and a flow with options of its own.
use node_red_contrib_bull.Prelude.{◌≡◌, refl, true, false, List, [], ◌∷◌, All, if◌then◌else◌}
use node_red_contrib_bull.Js.Value.{
  plain, schema_migration_required, bool, str, obj, Fields, end, field, truthy,
}
use node_red_contrib_bull.Js.Objects.{get, find, has_own, lookup}
use node_red_contrib_bull.Js.Objects.Laws.{IsObject}
use node_red_contrib_bull.Nodes.Backend.{
  publish_backend_status, Backend, initial, Event, reads, ready, errors, seeds_ready, seeds_failed,
  reports, step, run,
}
use node_red_contrib_bull.Nodes.Backend.Reports.{closes_node, is_connecting, seeds-run}
use node_red_contrib_bull.Nodes.Flows.{with_bulk_flow_job_defaults}
use node_red_contrib_bull.Nodes.Flows.Laws.{get_opts-with_bulk_flow_job_defaults}

abbrev failing : List Event
failing =
    reads 1
    ∷ seeds_failed schema_migration_required "no schema"
    ∷ reads 2
    ∷ reports plain "gone"
    ∷ errors
    ∷ []

failing_open : All (λ e. closes_node e ≡ false) failing
failing_open = (refl, (refl, (refl, (refl, (refl, tt)))))

abbrev connected_once : Backend
connected_once = step "16" "17" initial ready

was_observed : is_connecting connected_once.status ≡ false
unfolding step publish_backend_status
was_observed = refl

seeds-run_example :
    (step "16" "17" (run "16" "17" connected_once failing) seeds_ready
      ≡ run "16" "17" connected_once failing)
    × (step "16" "17" (run "16" "17" connected_once failing) (seeds_failed plain "late")
        ≡ run "16" "17" connected_once failing)
seeds-run_example = seeds-run "16" "17" connected_once failing plain "late" was_observed

abbrev own_opts : Fields
own_opts = field "removeOnFail" (bool false) end

abbrev flow : Fields
flow = field "name" (str "parent") (field "opts" (obj own_opts) end)

abbrev default_opts : Fields
default_opts = field "removeOnFail" (bool true) end

defaults_given : truthy (obj default_opts) ≡ true
unfolding truthy
defaults_given = refl

own_set : find "opts" flow ≡ obj own_opts
unfolding find lookup
own_set = refl

own_unique : IsObject own_opts
unfolding lookup
own_unique = (refl, tt)

get_opts-with_bulk_flow_job_defaults_example :
    get "removeOnFail" (get "opts" (with_bulk_flow_job_defaults (obj flow) (obj default_opts))) ≡ (
      if has_own "removeOnFail" (obj own_opts)
      then find "removeOnFail" own_opts
      else find "removeOnFail" default_opts)
get_opts-with_bulk_flow_job_defaults_example =
    get_opts-with_bulk_flow_job_defaults "removeOnFail" flow own_opts default_opts own_set
      own_unique
