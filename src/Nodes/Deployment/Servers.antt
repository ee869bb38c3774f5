-- ===== src/Nodes/Deployment/Servers.antt =====
-- What a deployment does to the resources of its configuration node.
use node_red_contrib_bull.Prelude.{
  ℕ, String, ◌≡◌, refl, Bool, true, List, [], ◌∷◌, Option, none, some, arith, All, ltb,
  if◌then◌else◌,
}
use node_red_contrib_bull.Js.Value.{Result, ok, err}
use node_red_contrib_bull.Nodes.Fields.{WorkerOptions, worker_options_of}
use node_red_contrib_bull.Nodes.Backend.{Backend}
use node_red_contrib_bull.Nodes.Resources.{
  Tracked, Server, Settings, Construction, Request, gets_queue, creates_worker,
  creates_flow_producer, creates_queue_events, releases, closes, serve, on_close,
}
use node_red_contrib_bull.Nodes.Resources.Counts.{count, owned, connected_at}
use node_red_contrib_bull.Nodes.Resources.Handed.{
  IsHeld, IsHeld-same, serve-IsHeld, succeeds, fresh-IsHeld, on_close-handed,
}
use node_red_contrib_bull.Nodes.Startup
use node_red_contrib_bull.Nodes.Lifecycle.{
  Opened, no_queue, no_resource, opened, Kind, open_node, open_worker, open_run_node,
  open_events_node, open_flow_node, open_command_node, read_after,
}
use node_red_contrib_bull.Nodes.Deployment.{
  Node, Deployment, undeployed, Event, closes_node, opens_run, opens_events, opens_flow,
  opens_command, node_event, backend_event, closes_command, closes_server, add_opened, step_at,
  release_at, step, run,
}

-- The requests to the configuration node that an event comes to are all of some kind.
abbrev pub allows_worker :
    (Request → Bool) → Bool → (WorkerOptions → Construction) → Result WorkerOptions → Bool
allows_worker fine installed construct (err e) = true
allows_worker fine installed construct (ok options) =
    fine (creates_worker installed (construct options))

abbrev pub allows : (Request → Bool) → Settings → Event → Bool
allows fine settings (opens_run n installed construct) =
    allows_worker fine installed construct (worker_options_of n settings.postgres)
allows fine settings (opens_events n c) = fine (creates_queue_events c)
allows fine settings (opens_flow installed c) = fine (creates_flow_producer installed c)
allows fine settings (opens_command reader installed c) = fine (gets_queue installed c)
allows fine settings _ = true

-- On Redis, no constructor of BullMQ throws; on PostgreSQL it may.
abbrev pub builds : Settings → Event → Bool
builds settings e = allows (succeeds settings) settings e

-- What the requests of the nodes keep, whatever the backend does, a deployment keeps.
module _ (low high : String) (settings : Settings) (P : Server → Type 0) (fine : Request → Bool)
    (releasing : (owner : ℕ) → fine (releases owner) ≡ true) (closing : fine closes ≡ true)
    (keep : (s : Server) (q : Request) → fine q ≡ true → P s → P (serve low high settings s q))
    (same : (s : Server) (b : Backend) → P s → P (record s { backend = b })) where
  add_opened-keeps :
      (d : Deployment) (x : Result Opened × Server) → P x.1 → P (add_opened d x).server
  add_opened-keeps d (err e, s) h = h
  add_opened-keeps d (ok no_queue, s) h = h
  add_opened-keeps d (ok no_resource, s) h = h
  add_opened-keeps d (ok (opened kind t starting), s) h = h

  open_node-keeps :
      (kind : Kind) (x : Result (Option Tracked) × Server) → P x.1 → P (open_node kind x).1
  open_node-keeps kind (err e, s) h = h
  open_node-keeps kind (ok none, s) h = h
  open_node-keeps kind (ok (some t), s) h = h

  open_worker-keeps :
      (installed : Bool) (construct : WorkerOptions → Construction) (options : Result WorkerOptions)
      (s : Server)
      → allows_worker fine installed construct options ≡ true
      → P s
      → P (open_worker low high settings installed construct options s).1
  unfolding serve
  open_worker-keeps installed construct (err e) s allowed h = h
  open_worker-keeps installed construct (ok options) s allowed h =
      open_node-keeps _ _ (keep s (creates_worker installed (construct options)) allowed h)

  read_after-keeps :
      (reader : ℕ) (x : Result (Option ℕ) × Server) → P x.1 → P (read_after reader x).1
  read_after-keeps reader (err e, s) h = h
  read_after-keeps reader (ok q, s) h = same s _ h

  step_at-keeps :
      (i : ℕ) (e : Startup.Event) (n : Option Node) (d : Deployment)
      → P d.server
      → P (step_at low high settings i e n d).server
  step_at-keeps i e none d h = h
  step_at-keeps i e (some n) d h = same d.server _ h

  release_at-keeps :
      (n : Option Node) (d : Deployment) → P d.server → P (release_at low high settings n d).server
  unfolding serve
  release_at-keeps none d h = h
  release_at-keeps (some n) d h =
      keep d.server (releases n.resource.owner) (releasing n.resource.owner) h

  step-keeps :
      (d : Deployment) (e : Event)
      → allows fine settings e ≡ true
      → P d.server
      → P (step low high settings d e).server
  unfolding step serve open_run_node open_events_node open_flow_node open_command_node
  step-keeps d (opens_run n installed construct) allowed h = add_opened-keeps d _ (
      open_worker-keeps installed construct (worker_options_of n settings.postgres) d.server allowed
        h)
  step-keeps d (opens_events n c) allowed h =
      add_opened-keeps d _ (open_node-keeps _ _ (keep d.server (creates_queue_events c) allowed h))
  step-keeps d (opens_flow installed c) allowed h =
      add_opened-keeps d _
        (open_node-keeps _ _ (keep d.server (creates_flow_producer installed c) allowed h))
  step-keeps d (opens_command reader installed c) allowed h =
      read_after-keeps reader _ (keep d.server (gets_queue installed c) allowed h)
  step-keeps d (node_event i e) allowed h = step_at-keeps i e (d.node i) d h
  step-keeps d (backend_event e) allowed h = same d.server _ h
  step-keeps d (closes_node i) allowed h = release_at-keeps (d.node i) d h
  step-keeps d (closes_command reader) allowed h = same d.server _ h
  step-keeps d closes_server allowed h = keep d.server closes closing h

  pub run-keeps :
      (d : Deployment) (es : List Event)
      → All (λ e. allows fine settings e ≡ true) es
      → P d.server
      → P (run low high settings d es).server
  unfolding run
  run-keeps d [] allowed h = h
  run-keeps d (e ∷ es) (here, later) h =
      run-keeps (step low high settings d e) es later (step-keeps d e here h)

releases-succeed : (settings : Settings) (owner : ℕ) → succeeds settings (releases owner) ≡ true
unfolding succeeds
releases-succeed settings owner = ground arith

closes-succeed : (settings : Settings) → succeeds settings closes ≡ true
unfolding succeeds
closes-succeed settings = ground arith

-- In a deployment, whatever the nodes, the libraries and the backend do, and in whichever order the nodes close, the close
-- of the configuration node leaves nothing in the Map of its resources, and each resource, and each connection, that it
-- ever made has been handed over to be closed exactly once, at the close or before it. On Redis the constructors of
-- BullMQ are assumed not to throw; on PostgreSQL they may.
pub run-on_close :
    (minimum_version recommended_version : String) (settings : Settings) (es : List Event) (k a : ℕ)
    → All (λ e. builds settings e ≡ true) es
    → let s = (run minimum_version recommended_version settings undeployed es).server in
      ((on_close s).resources ≡ [])
      × (count (owned k) (on_close s).handed ≡ (if ltb k s.constructed then 1 else 0))
      × (count (connected_at a) (on_close s).handed ≡ (if ltb a s.opened then 1 else 0))
      × (s.opened ≡ (if settings.postgres then 0 else s.constructed))
run-on_close low high settings es k a fine = on_close-handed settings _ k a (
    run-keeps low high settings (IsHeld settings) (succeeds settings)
      (λ owner. releases-succeed settings owner) (closes-succeed settings)
      (serve-IsHeld low high settings) (λ s b h. IsHeld-same settings s _ refl refl refl refl h)
      undeployed es fine (fresh-IsHeld low high settings))
