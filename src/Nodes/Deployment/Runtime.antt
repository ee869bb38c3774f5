-- ===== src/Nodes/Deployment/Runtime.antt =====
-- What holds of the run, events and flow nodes of a deployment.
use node_red_contrib_bull.Prelude.{
  ℕ, String, ◌≡◌, refl, Bool, List, [], ◌∷◌, Option, none, some, arith, ◌==◌, if◌then◌else◌,
  Bool-cases, inl, inr, subst, ap, sym, ◌∙◌,
}
use node_red_contrib_bull.Js.Value.{Fields, Result, ok, err}
use node_red_contrib_bull.Nodes.Fields.{WorkerOptions, worker_options_of}
use node_red_contrib_bull.Nodes.Resources.{Tracked, Server, Settings, Construction}
use node_red_contrib_bull.Nodes.Startup.{
  Phase, awaits_ready, awaits_run, ended, Starting, started, on_error, after_ready, after_failure,
  resume, step_postgres, step_redis, step_node,
}
use node_red_contrib_bull.Nodes.Startup
use node_red_contrib_bull.Nodes.Lifecycle.{
  Opened, no_queue, no_resource, opened, Kind, run_node, open_node, open_worker, open_run_node,
  open_events_node, open_flow_node, step_kind,
}
use node_red_contrib_bull.Nodes.Deployment.{
  Node, Deployment, undeployed, Event, closes_node, opens_run, opens_events, opens_flow,
  opens_command, node_event, backend_event, closes_command, closes_server, add_opened, step_at,
  release_at, step, run,
}

-- A node that a constructor made is of a kind.
abbrev OpenedAs : (Kind → Type 0) → Result Opened × Server → Type 0
OpenedAs Made (ok (opened kind t s), server) = Made kind × (s ≡ started)
OpenedAs Made (_, server) = Unit

-- How a kind of node is made.
abbrev pub Made : Settings → Kind → Type 0
Made settings (run_node options) =
    (n : Fields) × (worker_options_of n settings.postgres ≡ ok options)
Made settings _ = Unit

open_node-OpenedAs :
    (Made : Kind → Type 0) (kind : Kind) (x : Result (Option Tracked) × Server)
    → Made kind
    → OpenedAs Made (open_node kind x)
open_node-OpenedAs Made kind (err e, s) h = tt
open_node-OpenedAs Made kind (ok none, s) h = tt
open_node-OpenedAs Made kind (ok (some t), s) h = (h, refl)

-- A node is put at an address where all nodes have a property.
set_node :
    (R : Node → Type 0) (node : ℕ → Option Node) (i : ℕ) (x : Node)
    → R x
    → ((j : ℕ) (n : Node) → node j ≡ some n → R n)
    → (j : ℕ) (n : Node) → (if i == j then some x else node j) ≡ some n
    → R n
set_node R node i x r h j n at = elim (Bool-cases (i == j)) [
  | inl here ↦ let same : x ≡ n = ground arith in subst R same r
  | inr there ↦ h j n (ground arith)
]

-- What every node has at its start, and keeps at each of its events, all nodes of a deployment have.
module _ (low high : String) (settings : Settings) (Q : Kind → Starting → Type 0)
    (begin : (kind : Kind) → Made settings kind → Q kind started)
    (keep : (kind : Kind) (s : Starting) (e : Startup.Event)
      → Q kind s
      → Q kind (record (step_kind settings kind s e) { told_owner = [] })) where
  AllNodes : Deployment → Type 0
  AllNodes d = (i : ℕ) (n : Node) → d.node i ≡ some n → Q n.kind n.starting

  add_node :
      (d : Deployment) (kind : Kind) (t : Tracked) (starting : Starting) (s : Server)
      → Q kind starting
      → AllNodes d
      → AllNodes (add_opened d (ok (opened kind t starting), s))
  unfolding AllNodes
  add_node d kind t starting s q h =
      set_node (λ n. Q n.kind n.starting) d.node d.made
        (record { kind = kind; resource = t; starting = starting }) q h

  add_opened-AllNodes :
      (d : Deployment) (x : Result Opened × Server)
      → OpenedAs (Made settings) x
      → AllNodes d
      → AllNodes (add_opened d x)
  unfolding AllNodes
  add_opened-AllNodes d (err e, s) made h = h
  add_opened-AllNodes d (ok no_queue, s) made h = h
  add_opened-AllNodes d (ok no_resource, s) made h = h
  add_opened-AllNodes d (ok (opened kind t starting), s) made h =
      add_node d kind t starting s (rw made.1 (begin kind made.0)) h

  step_at-AllNodes :
      (i : ℕ) (e : Startup.Event) (n : Option Node) (d : Deployment)
      → d.node i ≡ n
      → AllNodes d
      → AllNodes (step_at low high settings i e n d)
  unfolding AllNodes
  step_at-AllNodes i e none d found h = h
  step_at-AllNodes i e (some n) d found h =
      set_node (λ n. Q n.kind n.starting) d.node i _ (keep n.kind n.starting e (h i n found)) h

  release_at-node :
      (n : Option Node) (d : Deployment) → (release_at low high settings n d).node ≡ d.node
  release_at-node none d = refl
  release_at-node (some n) d = refl

  open_worker-OpenedAs :
      (n : Fields) (installed : Bool) (construct : WorkerOptions → Construction) (s : Server)
      (options : Result WorkerOptions)
      → worker_options_of n settings.postgres ≡ options
      → OpenedAs (Made settings) (open_worker low high settings installed construct options s)
  open_worker-OpenedAs n installed construct s (err e) same = tt
  open_worker-OpenedAs n installed construct s (ok options) same =
      open_node-OpenedAs (Made settings) (run_node options) _ (n, same)

  step-AllNodes : (d : Deployment) (e : Event) → AllNodes d → AllNodes (step low high settings d e)
  unfolding AllNodes step open_run_node open_events_node open_flow_node
  step-AllNodes d (opens_run n installed construct) h =
      add_opened-AllNodes d _
        (open_worker-OpenedAs n installed construct d.server (worker_options_of n settings.postgres)
          refl)
        h
  step-AllNodes d (opens_events n c) h =
      add_opened-AllNodes d _ (open_node-OpenedAs (Made settings) _ _ tt) h
  step-AllNodes d (opens_flow installed c) h =
      add_opened-AllNodes d _ (open_node-OpenedAs (Made settings) _ _ tt) h
  step-AllNodes d (opens_command reader installed c) h = h
  step-AllNodes d (node_event i e) h = step_at-AllNodes i e (d.node i) d refl h
  step-AllNodes d (backend_event e) h = h
  step-AllNodes d (closes_node i) h =
      λ j n at. h j n (sym (ap (λ f. f j) (release_at-node (d.node i) d)) ∙ at)
  step-AllNodes d (closes_command reader) h = h
  step-AllNodes d closes_server h = h

  run-AllNodes :
      (d : Deployment) (es : List Event) → AllNodes d → AllNodes (run low high settings d es)
  unfolding run
  run-AllNodes d [] h = h
  run-AllNodes d (e ∷ es) h = run-AllNodes (step low high settings d e) es (step-AllNodes d e h)

  pub deployed :
      (es : List Event) (i : ℕ) (n : Node)
      → (run low high settings undeployed es).node i ≡ some n
      → Q n.kind n.starting
  unfolding AllNodes
  deployed es = run-AllNodes undeployed es (λ i n at. ground arith)
