-- ===== src/Nodes/Deployment/Backends.antt =====
-- What a deployment does to the backend's state of its configuration node.
use node_red_contrib_bull.Prelude.{
  ℕ, String, ◌≡◌, refl, Bool, true, false, not, ◌&&◌, List, [], ◌∷◌, Option, none, some, All,
}
use node_red_contrib_bull.Js.Value.{Value, Result, ok, err}
use node_red_contrib_bull.Connections.Options.{Role}
use node_red_contrib_bull.Nodes.Fields.{WorkerOptions, worker_options_of}
use node_red_contrib_bull.Nodes.Backend.{
  Backend, reads, stops, reports, fails_to_construct, node_closes, report_backend_failure,
}
use node_red_contrib_bull.Nodes.Backend
use node_red_contrib_bull.Nodes.Backend.Reports
use node_red_contrib_bull.Nodes.Resources.{
  Tracked, Server, Settings, Construction, built, throws, create_for, create_resource, keep_queue,
  get_queue, get_queue_of, create_worker, create_queue_events, create_flow_producer, with_telemetry,
  release_resource, on_close, release_taken, take_owner,
}
use node_red_contrib_bull.Nodes.Startup
use node_red_contrib_bull.Nodes.Lifecycle.{
  Kind, open_node, open_worker, open_run_node, open_events_node, open_flow_node, open_command_node,
  read_after,
}
use node_red_contrib_bull.Nodes.Deployment.{
  Node, Deployment, Event, closes_node, opens_run, opens_events, opens_flow, opens_command,
  node_event, backend_event, closes_command, closes_server, error_of, add_opened, step_at,
  release_at, deliver, step, run,
}

-- The configuration node closes.
abbrev pub closes : Event → Bool
closes (backend_event e) = Reports.closes_node e
closes closes_server = true
closes _ = false

-- What every event of the backend keeps, those of a close included or not, a deployment keeps.
module _ (low high : String) (settings : Settings) (P : Backend → Type 0) (closing : Bool)
    (keep : (b : Backend) (e : Backend.Event)
      → Reports.closes_node e && not closing ≡ false
      → P b
      → P (Backend.step low high b e)) where
  create_for-keeps :
      (postgres : Bool) (role : Role) (c : Construction) (s : Server)
      → P s.backend
      → P (create_for low high settings postgres role c s).1.backend
  create_for-keeps true role built s h = h
  create_for-keeps true role (throws kind m) s h = keep s.backend (fails_to_construct kind m) refl h
  create_for-keeps false role built s h = h
  create_for-keeps false role (throws kind m) s h = h

  create_resource-keeps :
      (role : Role) (c : Construction) (s : Server)
      → P s.backend
      → P (create_resource low high settings role c s).1.backend
  unfolding create_resource
  create_resource-keeps role c s h = create_for-keeps settings.postgres role c s h

  keep_queue-keeps :
      (x : Result (Option Tracked) × Server)
      → P x.1.backend
      → P (keep_queue low high settings x).1.backend
  keep_queue-keeps (err e, s) h = h
  keep_queue-keeps (ok none, s) h = h
  keep_queue-keeps (ok (some t), s) h = h

  get_queue_of-keeps :
      (q : Option ℕ) (installed : Bool) (c : Construction) (s : Server)
      → P s.backend
      → P (get_queue_of low high settings q installed c s).1.backend
  get_queue_of-keeps (some q) installed c s h = h
  get_queue_of-keeps none installed c s h =
      keep_queue-keeps _
        (create_resource-keeps _ c (with_telemetry low high settings installed s) h)

  read_after-keeps :
      (reader : ℕ) (x : Result (Option ℕ) × Server)
      → P x.1.backend
      → P (read_after reader x).1.backend
  read_after-keeps reader (err e, s) h = h
  read_after-keeps reader (ok q, s) h = unfold Backend.step in keep s.backend (reads reader) refl h

  open_node-keeps :
      (kind : Kind) (d : Deployment) (x : Result (Option Tracked) × Server)
      → P x.1.backend
      → P (add_opened d (open_node kind x)).server.backend
  open_node-keeps kind d (err e, s) h = h
  open_node-keeps kind d (ok none, s) h = h
  open_node-keeps kind d (ok (some t), s) h = h

  open_worker-keeps :
      (d : Deployment) (installed : Bool) (construct : WorkerOptions → Construction)
      (options : Result WorkerOptions)
      → P d.server.backend
      → P
          (add_opened d
            (open_worker low high settings installed construct options d.server)).server.backend
  unfolding create_worker
  open_worker-keeps d installed construct (err e) h = h
  open_worker-keeps d installed construct (ok options) h = open_node-keeps _ d _ (
      create_resource-keeps _ (construct options)
        (with_telemetry low high settings installed d.server) h)

  pub deliver-keeps : (vs : List Value) (b : Backend) → P b → P (deliver low high settings vs b)
  unfolding deliver report_backend_failure Backend.step
  deliver-keeps [] b h = h
  deliver-keeps (v ∷ vs) b h =
      let (kind, m) = error_of v in
      keep (deliver low high settings vs b) (reports kind m) refl (deliver-keeps vs b h)

  step_at-keeps :
      (i : ℕ) (e : Startup.Event) (n : Option Node) (d : Deployment)
      → P d.server.backend
      → P (step_at low high settings i e n d).server.backend
  step_at-keeps i e none d h = h
  step_at-keeps i e (some n) d h = deliver-keeps _ _ h

  release_taken-keeps :
      (taken : Option (Tracked × List Tracked)) (s : Server)
      → P s.backend
      → P (release_taken taken s).backend
  unfolding release_taken
  release_taken-keeps none s h = h
  release_taken-keeps (some (t, rest)) s h = h

  release_at-keeps :
      (n : Option Node) (d : Deployment)
      → P d.server.backend
      → P (release_at low high settings n d).server.backend
  unfolding release_resource
  release_at-keeps none d h = h
  release_at-keeps (some n) d h =
      release_taken-keeps (take_owner n.resource.owner d.server.resources) d.server h

  step-keeps :
      (d : Deployment) (e : Event)
      → closes e && not closing ≡ false
      → P d.server.backend
      → P (step low high settings d e).server.backend
  unfolding step Backend.step open_run_node open_events_node open_flow_node open_command_node
      get_queue create_queue_events create_flow_producer on_close
  step-keeps d (opens_run n installed construct) stays h =
      open_worker-keeps d installed construct (worker_options_of n settings.postgres) h
  step-keeps d (opens_events n c) stays h =
      open_node-keeps _ d _ (create_resource-keeps _ c d.server h)
  step-keeps d (opens_flow installed c) stays h =
      open_node-keeps _ d _
        (create_resource-keeps _ c (with_telemetry low high settings installed d.server) h)
  step-keeps d (opens_command reader installed c) stays h =
      read_after-keeps reader _ (get_queue_of-keeps d.server.queue installed c d.server h)
  step-keeps d (node_event i e) stays h = step_at-keeps i e (d.node i) d h
  step-keeps d (backend_event e) stays h = keep d.server.backend e stays h
  step-keeps d (closes_node i) stays h = release_at-keeps (d.node i) d h
  step-keeps d (closes_command reader) stays h = keep d.server.backend (stops reader) refl h
  step-keeps d closes_server stays h = keep d.server.backend node_closes stays h

  pub run-keeps :
      (d : Deployment) (es : List Event)
      → All (λ e. closes e && not closing ≡ false) es
      → P d.server.backend
      → P (run low high settings d es).server.backend
  unfolding run
  run-keeps d [] stays h = h
  run-keeps d (e ∷ es) (here, later) h =
      run-keeps (step low high settings d e) es later (step-keeps d e here h)
