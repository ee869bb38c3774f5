-- ===== src/Nodes/Resources.antt =====
-- bull-queue.js: the resources that a `bullmq-queue-server` node creates for itself and for the other nodes,
-- with their connections. Resources and connections are named by numbers in the order in which they are made.
-- The constructors of BullMQ may throw; those of ioredis and of BullMQOtel are taken not to.
pub mod Counts
pub mod Handed
pub mod Released
use node_red_contrib_bull.Prelude.{
  ℕ, suc, String, Bool, true, false, ◌||◌, not, List, [], ◌∷◌, ◌++◌, Option, none, some, ◌==◌,
  if◌then◌else◌,
}
use node_red_contrib_bull.Js.Value.{ErrorClass, failure, Result, ok, err}
use node_red_contrib_bull.Connections.Options.{Role, producer, worker, events}
use node_red_contrib_bull.Nodes.Backend.{Backend, initial, fails_to_construct, clear_failures}
use node_red_contrib_bull.Nodes.Backend

-- `config.backend === "postgres"`, and `config.telemetry`.
pub record Settings : Type 0 where
  pub postgres : Bool
  pub telemetry : Bool

pub record Connection : Type 0 where
  pub address : ℕ
  pub role : Role

-- An entry of the Map `resources`.
pub record Tracked : Type 0 where
  pub owner : ℕ
  pub connection : Option Connection

-- `telemetry`, `telemetryUnavailable`, and how often the absence of bullmq-otel was reported.
pub record Telemetry : Type 0 where
  pub present : Bool
  pub unavailable : Bool
  pub complaints : ℕ

-- The node: the Map `resources` in its order, the queue and its connection, how many connections and
-- resources were made, the resources whose backend is watched, and what was given to `closeResourcePair`,
-- the first at the front.
pub record Server : Type 0 where
  pub resources : List Tracked
  pub queue : Option ℕ
  pub producer_connection : Option Connection
  pub telemetry : Telemetry
  pub backend : Backend
  pub opened : ℕ
  pub constructed : ℕ
  pub watched : List ℕ
  pub handed : List Tracked

abbrev pub fresh : Server
fresh = record {
  resources = [];
  queue = none;
  producer_connection = none;
  telemetry = record { present = false; unavailable = false; complaints = 0 };
  backend = initial;
  opened = 0;
  constructed = 0;
  watched = [];
  handed = [];
}

-- What a constructor of BullMQ does.
pub data Construction : Type 0 where
  built : Construction
  throws : ErrorClass → String → Construction

-- `getTelemetry`, where `installed` says that bullmq-otel can be loaded.
unfoldable pub get_telemetry : Bool → Bool → Telemetry → Telemetry
get_telemetry enabled installed t =
    let loaded =
      if installed
      then record t { present = true }
      else record t { unavailable = true; complaints = suc t.complaints } in
    if not enabled then t else if t.present || t.unavailable then t else loaded

-- `node.resources.delete(owner)`, with the entry that was there.
unfoldable pub take_owner : ℕ → List Tracked → Option (Tracked × List Tracked)
take_owner owner [] = none
take_owner owner (t ∷ rest) = elim (t.owner == owner) [
  | true ↦ some (t, rest)
  | false ↦ elim (take_owner owner rest) [ none ↦ none | some found ↦ some (found.0, t ∷ found.1) ]
]

abbrev pub track : Tracked → Server → Server
track t s = record s { resources = s.resources ++ (t ∷ []); constructed = suc s.constructed }

unfoldable pub release_taken : Option (Tracked × List Tracked) → Server → Server
release_taken none s = s
release_taken (some (t, rest)) s = record s { resources = rest; handed = s.handed ++ (t ∷ []) }

-- `releaseResource`, up to its await.
unfoldable pub release_resource : ℕ → Server → Server
release_resource owner s = release_taken (take_owner owner s.resources) s

abbrev pub all_reversed : List Tracked → List Tracked → List Tracked
all_reversed [] handed = handed
all_reversed (t ∷ ts) handed = all_reversed ts (t ∷ handed)

-- `onClose`, up to its await: the resources in reverse order.
unfoldable pub on_close : Server → Server
on_close s = record s {
  backend = clear_failures s.backend;
  handed = s.handed ++ all_reversed s.resources [];
  resources = [];
}

-- What the nodes ask of the configuration node, and its close.
pub data Request : Type 0 where
  gets_queue creates_worker creates_flow_producer : Bool → Construction → Request
  creates_queue_events : Construction → Request
  releases : ℕ → Request
  closes : Request

module _ (minimum_version recommended_version : String) (settings : Settings) where
  -- `createResource` on PostgreSQL, after the options were made.
  abbrev pub create_postgres : Construction → Server → Result (Option Tracked) × Server
  create_postgres built s =
      let t : Tracked = record { owner = s.constructed; connection = none } in
      (ok (some t), track t s)
  create_postgres (throws kind m) s = (
    ok none,
    record s {
      backend =
          Backend.step minimum_version recommended_version s.backend (fails_to_construct kind m);
    },
  )

  -- `createResource` on Redis: the connection is made before the resource.
  abbrev pub create_redis : Role → Construction → Server → Result (Option Tracked) × Server
  create_redis role built s =
      let t : Tracked = record {
        owner = s.constructed;
        connection = some (record { address = s.opened; role = role });
      } in
      (ok (some t), track t (record s { opened = suc s.opened }))
  create_redis role (throws kind m) s = (err (failure kind m), record s { opened = suc s.opened })

  abbrev pub create_for : Bool → Role → Construction → Server → Result (Option Tracked) × Server
  create_for true role c s = create_postgres c s
  create_for false role c s = create_redis role c s

  unfoldable pub create_resource : Role → Construction → Server → Result (Option Tracked) × Server
  create_resource role c s = create_for settings.postgres role c s

  abbrev pub with_telemetry : Bool → Server → Server
  with_telemetry installed s = record s {
    telemetry = get_telemetry settings.telemetry installed s.telemetry;
  }

  abbrev pub keep_queue : Result (Option Tracked) × Server → Result (Option ℕ) × Server
  keep_queue (err e, s) = (err e, s)
  keep_queue (ok none, s) = (ok none, s)
  keep_queue (ok (some t), s) = (
    ok (some t.owner),
    record s {
      queue = some t.owner;
      producer_connection = t.connection;
      watched = t.owner ∷ s.watched;
    },
  )

  abbrev pub get_queue_of : Option ℕ → Bool → Construction → Server → Result (Option ℕ) × Server
  get_queue_of (some q) installed c s = (ok (some q), s)
  get_queue_of none installed c s =
      keep_queue (create_resource producer c (with_telemetry installed s))

  unfoldable pub get_queue : Bool → Construction → Server → Result (Option ℕ) × Server
  get_queue installed c s = get_queue_of s.queue installed c s

  unfoldable pub create_worker : Bool → Construction → Server → Result (Option Tracked) × Server
  create_worker installed c s = create_resource worker c (with_telemetry installed s)

  unfoldable pub create_queue_events : Construction → Server → Result (Option Tracked) × Server
  create_queue_events c s = create_resource events c s

  unfoldable pub create_flow_producer :
      Bool → Construction → Server → Result (Option Tracked) × Server
  create_flow_producer installed c s = create_resource producer c (with_telemetry installed s)

  unfoldable pub serve : Server → Request → Server
  serve s (gets_queue installed c) = (get_queue installed c s).1
  serve s (creates_worker installed c) = (create_worker installed c s).1
  serve s (creates_flow_producer installed c) = (create_flow_producer installed c s).1
  serve s (creates_queue_events c) = (create_queue_events c s).1
  serve s (releases owner) = release_resource owner s
  serve s closes = on_close s

  unfoldable pub serve_all : Server → List Request → Server
  serve_all s [] = s
  serve_all s (q ∷ qs) = serve_all (serve s q) qs
