-- ===== src/Nodes/Deployment/Separation.antt =====
-- In a deployment, no node shares its resource with another node, or with the command nodes.
pub mod Runs
use node_red_contrib_bull.Prelude.{
  ℕ, suc, ◌<◌, String, ◌≡◌, refl, Bool, true, false, List, [], ◌∷◌, Option, none, some, ◌==◌, arith,
  if◌then◌else◌, Bool-cases, inl, inr, subst, sym, ap, ◌∙◌, fun_ext,
}
use node_red_contrib_bull.Js.Value.{Result, ok, err}
use node_red_contrib_bull.Connections.Options.{Role, producer, worker, events}
use node_red_contrib_bull.Nodes.Fields.{WorkerOptions, worker_options_of}
use node_red_contrib_bull.Nodes.Resources.{
  Settings, Tracked, Server, Construction, built, throws, with_telemetry, create_for,
  create_resource, keep_queue, get_queue, get_queue_of, create_worker, create_queue_events,
  create_flow_producer, release_taken, release_resource, take_owner, on_close,
}
use node_red_contrib_bull.Nodes.Startup
use node_red_contrib_bull.Nodes.Lifecycle.{
  Opened, no_queue, no_resource, opened, Kind, run_node, open_node, open_worker, open_run_node,
  open_events_node, open_flow_node, open_command_node, read_after,
}
use node_red_contrib_bull.Nodes.Deployment.{
  Node, Deployment, undeployed, Event, opens_run, opens_events, opens_flow, opens_command,
  node_event, backend_event, closes_node, closes_command, closes_server, add_opened, step_at,
  release_at, step, run,
}

-- The resource of a node.
abbrev pub owner_at : Option Node → Option ℕ
owner_at none = none
owner_at (some n) = some n.resource.owner

-- Resources in use, by number: those of the nodes, of which some were made, and that of the queue.
pub record Separate (own : ℕ → Option ℕ) (made constructed : ℕ) (queue : Option ℕ) : Type 0 where
  pub numbered : (i k : ℕ) → own i ≡ some k → (i < made) × (k < constructed)
  pub distinct : (i j k : ℕ) → own i ≡ some k → own j ≡ some k → i ≡ j
  pub queued : (q : ℕ) → queue ≡ some q → q < constructed
  pub shared : (i k : ℕ) → own i ≡ some k → queue ≡ some k → ⊥

grow_node :
    (own : ℕ → Option ℕ) (made constructed : ℕ) (queue : Option ℕ)
    → Separate own made constructed queue
    → Separate
        (λ j. if made == j then some constructed else own j)
        (suc made)
        (suc constructed)
        queue
grow_node own made constructed queue h = record {
  numbered = λ i k at. ground (arith, h.numbered i k);
  distinct = λ i j k at also. ground (arith, h.numbered i k, h.numbered j k, h.distinct i j k);
  queued = λ q is. ground (arith, h.queued q);
  shared = λ i k at is. ground (arith, h.queued k, h.shared i k);
}

pub grow_queue :
    (own : ℕ → Option ℕ) (made constructed : ℕ) (queue : Option ℕ)
    → Separate own made constructed queue
    → Separate own made (suc constructed) (some constructed)
grow_queue own made constructed queue h = record {
  numbered = λ i k at. ground (arith, h.numbered i k);
  distinct = λ i j k at also. h.distinct i j k at also;
  queued = λ q is. ground arith;
  shared = λ i k at is. ground (arith, h.numbered i k);
}

unfoldable pub IsSeparated : Deployment → Type 0
IsSeparated d = Separate (λ i. owner_at (d.node i)) d.made d.server.constructed d.server.queue

pub Separate-same :
    (own own' : ℕ → Option ℕ) (made constructed : ℕ) (queue : Option ℕ)
    → ((i : ℕ) → own i ≡ own' i)
    → Separate own made constructed queue
    → Separate own' made constructed queue
Separate-same own own' made constructed queue same h =
    subst (λ f. Separate f made constructed queue) (fun_ext same) h

node_owner :
    (d : Deployment) (kind : Kind) (t : Tracked) (starting : Startup.Starting)
    → t.owner ≡ d.server.constructed
    → (i : ℕ)
    → (if d.made == i then some d.server.constructed else owner_at (d.node i))
      ≡ owner_at (
          if d.made == i
          then some (record { kind = kind; resource = t; starting = starting })
          else d.node i)
node_owner d kind t starting mine i = elim (Bool-cases (d.made == i)) [
  | inl here ↦ rw here (ap some (sym mine))
  | inr there ↦ rw there refl
]

-- What a constructor does to the number of resources and to the queue.
abbrev pub Grew : Server → Result Opened × Server → Type 0
Grew s (ok (opened kind t starting), s') =
    (t.owner ≡ s.constructed) × (s'.constructed ≡ suc s.constructed) × (s'.queue ≡ s.queue)
Grew s (_, s') = (s'.constructed ≡ s.constructed) × (s'.queue ≡ s.queue)

pub add_opened-IsSeparated :
    (d : Deployment) (x : Result Opened × Server)
    → Grew d.server x
    → IsSeparated d
    → IsSeparated (add_opened d x)
unfolding IsSeparated
add_opened-IsSeparated d (err e, s) (built_same, queue_same) h = rw (built_same, queue_same) h
add_opened-IsSeparated d (ok no_queue, s) (built_same, queue_same) h = rw (built_same, queue_same) h
add_opened-IsSeparated d (ok no_resource, s) (built_same, queue_same) h =
    rw (built_same, queue_same) h
add_opened-IsSeparated d (ok (opened kind t starting), s) (mine, one_more, queue_same) h =
    rw (one_more, queue_same)
      (Separate-same _ _ (suc d.made) _ _ (node_owner d kind t starting mine)
        (grow_node (λ i. owner_at (d.node i)) d.made d.server.constructed d.server.queue h))
