-- ===== src/Nodes/Deployment/Separation/Runs.antt =====
-- The resources of a deployment stay apart in every history.
use node_red_contrib_bull.Prelude.{
  ℕ, suc, String, ◌≡◌, refl, Bool, true, false, List, [], ◌∷◌, Option, none, some, ◌==◌, arith,
  Bool-cases, inl, inr, sym, ap, ◌∙◌,
}
use node_red_contrib_bull.Js.Value.{Result, ok, err}
use node_red_contrib_bull.Connections.Options.{Role, producer, worker, events}
use node_red_contrib_bull.Nodes.Fields.{WorkerOptions, worker_options_of}
use node_red_contrib_bull.Nodes.Resources.{
  Settings, Tracked, Server, Construction, built, throws, with_telemetry, create_for,
  create_resource, keep_queue, get_queue, get_queue_of, create_worker, create_queue_events,
  create_flow_producer, release_taken, release_resource, take_owner, on_close,
}
use node_red_contrib_bull.Nodes.Startup
use node_red_contrib_bull.Nodes.Lifecycle.{
  Kind, run_node, open_node, open_worker, open_run_node, open_events_node, open_flow_node,
  open_command_node, read_after,
}
use node_red_contrib_bull.Nodes.Deployment.{
  Node, Deployment, undeployed, Event, opens_run, opens_events, opens_flow, opens_command,
  node_event, backend_event, closes_node, closes_command, closes_server, step_at, release_at, step,
  run,
}
use node_red_contrib_bull.Nodes.Deployment.Separation.{
  owner_at, Separate, grow_queue, Separate-same, IsSeparated, Grew, add_opened-IsSeparated,
}

module _ (low high : String) (settings : Settings) where
  -- What creating a resource does to them.
  abbrev Created : Server → Result (Option Tracked) × Server → Type 0
  Created s (ok (some t), s') =
      (t.owner ≡ s.constructed) × (s'.constructed ≡ suc s.constructed) × (s'.queue ≡ s.queue)
  Created s (_, s') = (s'.constructed ≡ s.constructed) × (s'.queue ≡ s.queue)

  create_for-Created :
      (postgres : Bool) (role : Role) (c : Construction) (s : Server)
      → Created s (create_for low high settings postgres role c s)
  create_for-Created true role built s = (refl, refl, refl)
  create_for-Created true role (throws kind m) s = (refl, refl)
  create_for-Created false role built s = (refl, refl, refl)
  create_for-Created false role (throws kind m) s = (refl, refl)

  create_resource-Created :
      (role : Role) (c : Construction) (s : Server)
      → Created s (create_resource low high settings role c s)
  unfolding create_resource
  create_resource-Created role c s = create_for-Created settings.postgres role c s

  open_node-Grew :
      (kind : Kind) (s : Server) (x : Result (Option Tracked) × Server)
      → Created s x
      → Grew s (open_node kind x)
  open_node-Grew kind s (err e, s') h = h
  open_node-Grew kind s (ok none, s') h = h
  open_node-Grew kind s (ok (some t), s') h = h

  open_worker-Grew :
      (installed : Bool) (construct : WorkerOptions → Construction) (options : Result WorkerOptions)
      (s : Server)
      → Grew s (open_worker low high settings installed construct options s)
  unfolding create_worker
  open_worker-Grew installed construct (err e) s = (refl, refl)
  open_worker-Grew installed construct (ok options) s = open_node-Grew (run_node options) s _ (
      create_resource-Created worker (construct options)
        (with_telemetry low high settings installed s))

  -- The queue of the command nodes.
  keep_queue-Separate :
      (own : ℕ → Option ℕ) (made : ℕ) (s : Server) (x : Result (Option Tracked) × Server)
      → Created s x
      → Separate own made s.constructed s.queue
      → let s' = (keep_queue low high settings x).1 in Separate own made s'.constructed s'.queue
  keep_queue-Separate own made s (err e, s') (built_same, queue_same) h =
      rw (built_same, queue_same) h
  keep_queue-Separate own made s (ok none, s') (built_same, queue_same) h =
      rw (built_same, queue_same) h
  keep_queue-Separate own made s (ok (some t), s') (mine, one_more, queue_same) h =
      rw (one_more, mine) (grow_queue own made s.constructed s.queue h)

  get_queue_of-Separate :
      (own : ℕ → Option ℕ) (made : ℕ) (q : Option ℕ) (installed : Bool) (c : Construction)
      (s : Server)
      → Separate own made s.constructed s.queue
      → let s' = (get_queue_of low high settings q installed c s).1 in
        Separate own made s'.constructed s'.queue
  get_queue_of-Separate own made (some q) installed c s h = h
  get_queue_of-Separate own made none installed c s h =
      keep_queue-Separate own made (with_telemetry low high settings installed s) _
        (create_resource-Created producer c (with_telemetry low high settings installed s)) h

  read_after-Separate :
      (own : ℕ → Option ℕ) (made reader : ℕ) (x : Result (Option ℕ) × Server)
      → Separate own made x.1.constructed x.1.queue
      → let s' = (read_after reader x).1 in Separate own made s'.constructed s'.queue
  read_after-Separate own made reader (err e, s) h = h
  read_after-Separate own made reader (ok q, s) h = h

  step_at-IsSeparated :
      (i : ℕ) (e : Startup.Event) (n : Option Node) (d : Deployment)
      → d.node i ≡ n
      → IsSeparated d
      → IsSeparated (step_at low high settings i e n d)
  unfolding IsSeparated
  step_at-IsSeparated i e none d found h = h
  step_at-IsSeparated i e (some n) d found h =
      Separate-same _ _ d.made d.server.constructed d.server.queue
        (λ j. elim (Bool-cases (i == j)) [
          | inl here ↦
              let same : i ≡ j = ground arith in
              rw here (ap owner_at (ap d.node (sym same) ∙ found))
          | inr there ↦ rw there refl
        ])
        h

  release_at-IsSeparated :
      (n : Option Node) (d : Deployment)
      → IsSeparated d
      → IsSeparated (release_at low high settings n d)
  unfolding IsSeparated release_resource
  release_at-IsSeparated none d h = h
  release_at-IsSeparated (some n) d h =
      release_taken-Separate (take_owner n.resource.owner d.server.resources) h
    where
      release_taken-Separate :
          (taken : Option (Tracked × List Tracked))
          → Separate (λ i. owner_at (d.node i)) d.made d.server.constructed d.server.queue
          → Separate
              (λ i. owner_at (d.node i))
              d.made
              (release_taken taken d.server).constructed
              (release_taken taken d.server).queue
      release_taken-Separate none h = unfold release_taken in h
      release_taken-Separate (some (t, rest)) h = unfold release_taken in h

  step-IsSeparated :
      (d : Deployment) (e : Event) → IsSeparated d → IsSeparated (step low high settings d e)
  unfolding IsSeparated step open_run_node open_events_node open_flow_node open_command_node
      get_queue create_queue_events create_flow_producer on_close
  step-IsSeparated d (opens_run n installed construct) h =
      add_opened-IsSeparated d _
        (open_worker-Grew installed construct (worker_options_of n settings.postgres) d.server) h
  step-IsSeparated d (opens_events n c) h =
      add_opened-IsSeparated d _
        (open_node-Grew _ d.server _ (create_resource-Created events c d.server)) h
  step-IsSeparated d (opens_flow installed c) h =
      add_opened-IsSeparated d _
        (open_node-Grew _ d.server _ (
          create_resource-Created producer c (with_telemetry low high settings installed d.server)))
        h
  step-IsSeparated d (opens_command reader installed c) h =
      read_after-Separate _ d.made reader _
        (get_queue_of-Separate _ d.made d.server.queue installed c d.server h)
  step-IsSeparated d (node_event i e) h = step_at-IsSeparated i e (d.node i) d refl h
  step-IsSeparated d (backend_event e) h = h
  step-IsSeparated d (closes_node i) h = release_at-IsSeparated (d.node i) d h
  step-IsSeparated d (closes_command reader) h = h
  step-IsSeparated d closes_server h = h

  pub run-IsSeparated :
      (d : Deployment) (es : List Event) → IsSeparated d → IsSeparated (run low high settings d es)
  unfolding run
  run-IsSeparated d [] h = h
  run-IsSeparated d (e ∷ es) h =
      run-IsSeparated (step low high settings d e) es (step-IsSeparated d e h)

pub undeployed-IsSeparated : IsSeparated undeployed
unfolding IsSeparated
undeployed-IsSeparated = record {
  numbered = λ i k at. ground arith;
  distinct = λ i j k at also. ground arith;
  queued = λ q is. ground arith;
  shared = λ i k at is. ground arith;
}
