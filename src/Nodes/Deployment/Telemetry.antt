-- ===== src/Nodes/Deployment/Telemetry.antt =====
-- The telemetry of a deployment: `getTelemetry` of bull-queue.js.
use node_red_contrib_bull.Prelude.{
  ℕ, String, ◌≡◌, ◌≤◌, refl, Bool, true, false, ◌&&◌, List, [], ◌∷◌, Option, none, some, arith, All,
  if◌then◌else◌,
}
use node_red_contrib_bull.Js.Value.{Result, ok, err}
use node_red_contrib_bull.Connections.Options.{Role}
use node_red_contrib_bull.Nodes.Fields.{WorkerOptions, worker_options_of}
use node_red_contrib_bull.Nodes.Resources.{
  Settings, Tracked, Server, Telemetry, Construction, built, throws, Request, gets_queue,
  creates_worker, creates_flow_producer, creates_queue_events, releases, closes, get_telemetry,
  with_telemetry, create_for, create_resource, keep_queue, get_queue, get_queue_of, create_worker,
  create_queue_events, create_flow_producer, release_taken, release_resource, take_owner, on_close,
  serve, fresh,
}
use node_red_contrib_bull.Nodes.Deployment.{
  undeployed, Event, opens_run, opens_events, opens_flow, opens_command, node_event, backend_event,
  closes_node, closes_command, closes_server, run,
}
use node_red_contrib_bull.Nodes.Deployment.Servers.{allows, allows_worker, run-keeps}

-- The absence of bullmq-otel was reported once if it was noticed, and never otherwise.
record IsNoticed (settings : Settings) (t : Telemetry) : Type 0 where
  complaints : t.complaints ≡ (if t.unavailable then 1 else 0)
  apart : t.present && t.unavailable ≡ false
  asked : t.unavailable ≡ true → settings.telemetry ≡ true

get_telemetry-IsNoticed :
    (settings : Settings) (installed : Bool) (t : Telemetry)
    → IsNoticed settings t
    → IsNoticed settings (get_telemetry settings.telemetry installed t)
unfolding get_telemetry
get_telemetry-IsNoticed settings installed t h = record {
  complaints = ground (arith, h.complaints);
  apart = ground (arith, h.apart);
  asked = λ noticed. ground (arith, h.asked);
}

module _ (low high : String) (settings : Settings) where
  KeepsNotice : Server → Type 0
  KeepsNotice s = IsNoticed settings s.telemetry

  create_for-KeepsNotice :
      (postgres : Bool) (role : Role) (c : Construction) (s : Server)
      → KeepsNotice s
      → KeepsNotice (create_for low high settings postgres role c s).1
  unfolding KeepsNotice
  create_for-KeepsNotice true role built s h = h
  create_for-KeepsNotice true role (throws kind m) s h = h
  create_for-KeepsNotice false role built s h = h
  create_for-KeepsNotice false role (throws kind m) s h = h

  create_resource-KeepsNotice :
      (role : Role) (c : Construction) (s : Server)
      → KeepsNotice s
      → KeepsNotice (create_resource low high settings role c s).1
  unfolding create_resource
  create_resource-KeepsNotice role c s h = create_for-KeepsNotice settings.postgres role c s h

  with_telemetry-KeepsNotice :
      (installed : Bool) (s : Server)
      → KeepsNotice s
      → KeepsNotice (with_telemetry low high settings installed s)
  unfolding KeepsNotice
  with_telemetry-KeepsNotice installed s h =
      get_telemetry-IsNoticed settings installed s.telemetry h

  keep_queue-KeepsNotice :
      (x : Result (Option Tracked) × Server)
      → KeepsNotice x.1
      → KeepsNotice (keep_queue low high settings x).1
  unfolding KeepsNotice
  keep_queue-KeepsNotice (err e, s) h = h
  keep_queue-KeepsNotice (ok none, s) h = h
  keep_queue-KeepsNotice (ok (some t), s) h = h

  get_queue_of-KeepsNotice :
      (q : Option ℕ) (installed : Bool) (c : Construction) (s : Server)
      → KeepsNotice s
      → KeepsNotice (get_queue_of low high settings q installed c s).1
  get_queue_of-KeepsNotice (some q) installed c s h = h
  get_queue_of-KeepsNotice none installed c s h =
      keep_queue-KeepsNotice _
        (create_resource-KeepsNotice _ c _ (with_telemetry-KeepsNotice installed s h))

  release_taken-KeepsNotice :
      (taken : Option (Tracked × List Tracked)) (s : Server)
      → KeepsNotice s
      → KeepsNotice (release_taken taken s)
  unfolding KeepsNotice release_taken
  release_taken-KeepsNotice none s h = h
  release_taken-KeepsNotice (some (t, rest)) s h = h

  serve-KeepsNotice :
      (s : Server) (q : Request)
      → true ≡ true
      → KeepsNotice s
      → KeepsNotice (serve low high settings s q)
  unfolding KeepsNotice serve get_queue create_worker create_queue_events create_flow_producer
      release_resource on_close
  serve-KeepsNotice s (gets_queue installed c) any h =
      get_queue_of-KeepsNotice s.queue installed c s h
  serve-KeepsNotice s (creates_worker installed c) any h =
      create_resource-KeepsNotice _ c _ (with_telemetry-KeepsNotice installed s h)
  serve-KeepsNotice s (creates_flow_producer installed c) any h =
      create_resource-KeepsNotice _ c _ (with_telemetry-KeepsNotice installed s h)
  serve-KeepsNotice s (creates_queue_events c) any h = create_resource-KeepsNotice _ c s h
  serve-KeepsNotice s (releases owner) any h =
      release_taken-KeepsNotice (take_owner owner s.resources) s h
  serve-KeepsNotice s closes any h = h

  worker_allowed :
      (installed : Bool) (construct : WorkerOptions → Construction) (options : Result WorkerOptions)
      → allows_worker (λ q. true) installed construct options ≡ true
  worker_allowed installed construct (err e) = refl
  worker_allowed installed construct (ok options) = refl

  All-allowed : (es : List Event) → All (λ e. allows (λ q. true) settings e ≡ true) es
  All-allowed [] = tt
  All-allowed (opens_run n installed construct ∷ es) =
      (worker_allowed installed construct (worker_options_of n settings.postgres), All-allowed es)
  All-allowed (opens_events n c ∷ es) = (refl, All-allowed es)
  All-allowed (opens_flow installed c ∷ es) = (refl, All-allowed es)
  All-allowed (opens_command reader installed c ∷ es) = (refl, All-allowed es)
  All-allowed (node_event i e ∷ es) = (refl, All-allowed es)
  All-allowed (backend_event e ∷ es) = (refl, All-allowed es)
  All-allowed (closes_node i ∷ es) = (refl, All-allowed es)
  All-allowed (closes_command reader ∷ es) = (refl, All-allowed es)
  All-allowed (closes_server ∷ es) = (refl, All-allowed es)

  noticed_once :
      (t : Telemetry)
      → IsNoticed settings t
      → (t.complaints ≤ (if settings.telemetry then 1 else 0))
        × (t.present && t.unavailable ≡ false)
  noticed_once t h = (ground (arith, h.complaints, h.asked), h.apart)

  fresh-KeepsNotice : KeepsNotice fresh
  unfolding KeepsNotice
  fresh-KeepsNotice = record { complaints = refl; apart = refl; asked = λ noticed. ground arith }

  -- In a deployment, whatever happens to it, and whether or not bullmq-otel can be loaded each time, its absence is reported
  -- once at most, and never if the configuration does not ask for telemetry; and a configuration node that
  -- noticed the absence has no telemetry.
  pub run-complaints :
      (es : List Event)
      → let t = (run low high settings undeployed es).server.telemetry in
        (t.complaints ≤ (if settings.telemetry then 1 else 0))
        × (t.present && t.unavailable ≡ false)
  unfolding KeepsNotice
  run-complaints es = noticed_once _ (
      run-keeps low high settings KeepsNotice (λ q. true) (λ owner. refl) refl serve-KeepsNotice
        (λ s b h. h) undeployed es (All-allowed es) fresh-KeepsNotice)
