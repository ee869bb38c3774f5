-- ===== src/Connections/Config.antt =====
-- lib/connections.js: `normalizeQueueConfig` and `normalizePostgresConfig`. A field of the result that
-- the code leaves `undefined` is the value `undefined` here.
use Prim.Native.Char.{code}
use node_red_contrib_bull.Prelude.{
  ℕ, String, Bool, true, false, not, ◌&&◌, ◌||◌, List, [], ◌∷◌, Option, none, some, ◌<>◌, ◌==◌,
  str_eq, if◌then◌else◌,
}
use node_red_contrib_bull.Js.Text.{trim, to_lower}
use node_red_contrib_bull.Js.Number.{Number, nat}
use node_red_contrib_bull.Js.Value.{
  Value, undefined, num, str, Fields, Result, ok, ◌>>=◌, ◌>>◌, throw, truthy, is_present, or_value,
  to_string, to_number,
}
use node_red_contrib_bull.Js.Objects.{find}
use node_red_contrib_bull.Connections.Coercions.{
  to_boolean, to_port, normalize_backend, to_pool_max, read_secret, build_default_job_options,
}
use node_red_contrib_bull.Connections.Endpoints.{Endpoint, NodeParsers, parse_endpoint_list}
pub use node_red_contrib_bull.Connections.Records.{
  Deployment, single, cluster, sentinel, TlsOptions, TlsFields, RedisConfig, PoolConfig,
  PostgresConfig, QueueConfig, redis, postgres, or_undefined,
}
unfoldable pub use node_red_contrib_bull.Connections.Records.{build_tls_options}

unfoldable pub tls_fields_of : Fields → Fields → TlsFields
tls_fields_of config credentials = record {
  tls_reject_unauthorized = to_boolean (find "tlsRejectUnauthorized" config) true;
  tls_server_name = or_undefined (find "tlsServerName" config);
  tls_ca = read_secret credentials "tlsCa";
  tls_cert = read_secret credentials "tlsCert";
  tls_key = read_secret credentials "tlsKey";
}

-- `String(config.name || "").trim()`, refused if it is empty.
unfoldable pub queue_name_of : Fields → Result String
queue_name_of config =
    let name = trim (to_string (or_value (find "name" config) (str ""))) in
    if str_eq name "" then throw "BullMQ queue name is required" else ok name

-- `String(config.address || DEFAULT_HOST).trim()`
abbrev pub host_of : Fields → String
host_of config = trim (to_string (or_value (find "address" config) (str "localhost")))

abbrev pub postgres_connection_timeout_ms : ℕ
postgres_connection_timeout_ms = 10000

unfoldable pub normalize_postgres_config : Fields → Fields → Result PostgresConfig
normalize_postgres_config config credentials = do
  queue_name ← queue_name_of config
  port ← to_port (find "port" config) (nat 5432) "PostgreSQL"
  max ← to_pool_max (find "max" config)
  default_job_options ← build_default_job_options config
  ok (record {
    queue_name = queue_name;
    postgres = record {
      host = host_of config;
      port = port;
      database = or_undefined (find "database" config);
      user = or_undefined (find "username" config);
      password = read_secret credentials "password";
      schema = or_undefined (find "schema" config);
      max = max;
      connection_timeout_millis = postgres_connection_timeout_ms;
      migrate = to_boolean (find "migrate" config) true;
      ssl =
          build_tls_options (tls_fields_of config credentials)
            (to_boolean (find "tls" config) false);
    };
    default_job_options = default_job_options;
    telemetry = to_boolean (find "telemetry" config) false;
    telemetry_service_name = or_undefined (find "telemetryServiceName" config);
    telemetry_metrics = to_boolean (find "telemetryMetrics" config) false;
  })

unfoldable pub deployment_of : Fields → Result Deployment
deployment_of config =
    let name = to_lower (to_string (or_value (find "deployment" config) (str "single"))) in
    if str_eq name "single"
    then ok single
    else if str_eq name "cluster"
    then ok cluster
    else if str_eq name "sentinel"
    then ok sentinel
    else throw ("Unsupported Redis deployment mode: " <> name)

contains_close : String → Bool
contains_close String.[] = false
contains_close (String.◌∷◌ c s) = code c == b'}' || contains_close s

tag_after : String → Bool
tag_after String.[] = false
tag_after (String.◌∷◌ c s) = not (code c == b'}') && contains_close s

-- `/\{[^}]+\}/.test(prefix)`
unfoldable pub has_hash_tag : String → Bool
unfolding tag_after contains_close
has_hash_tag String.[] = false
has_hash_tag (String.◌∷◌ c s) = (code c == b'{' && tag_after s) || has_hash_tag s

abbrev pub cluster_prefix : Value
cluster_prefix = str "{bull}"

-- `nodes` if there are any, and else the one default.
abbrev pub or_default_endpoint : List Endpoint → String → Number → List Endpoint
or_default_endpoint [] host port = record { host = host; port = port } ∷ []
or_default_endpoint (e ∷ es) host port = e ∷ es

unfoldable pub complete_cluster : RedisConfig → Result RedisConfig
complete_cluster c =
    let prefix = or_value c.prefix cluster_prefix in
    if not (has_hash_tag (to_string prefix))
    then throw "Cluster BullMQ prefix must contain a Redis hash tag such as {bull}"
    else ok (record c {
      cluster_nodes = or_default_endpoint c.cluster_nodes c.host c.port;
      prefix = prefix;
    })

unfoldable pub complete_sentinel : RedisConfig → Result RedisConfig
complete_sentinel c =
    if not (truthy c.sentinel_master_name)
    then throw "Sentinel deployment requires a master name"
    else ok (record c { sentinels = or_default_endpoint c.sentinels c.host (nat 26379) })

-- The checks and defaults after the object is built.
unfoldable pub complete_deployment : Deployment → RedisConfig → Result RedisConfig
complete_deployment single c = ok c
complete_deployment cluster c = complete_cluster c
complete_deployment sentinel c = complete_sentinel c

-- The first of some names whose field is present.
unfoldable pub first_present : List String → Fields → Option String
first_present [] config = none
first_present (name ∷ names) config =
    if is_present (find name config) then some name else first_present names config

abbrev pub removed_aliases : List String
removed_aliases =
    "mode" ∷ "redisMode" ∷ "host" ∷ "queueName" ∷ "startupNodes" ∷ "masterName" ∷ "nameOfMaster"
    ∷ []

abbrev pub secret_names : List String
secret_names = "password" ∷ "sentinelPassword" ∷ "tlsCa" ∷ "tlsCert" ∷ "tlsKey" ∷ []

abbrev pub refuse_alias : Option String → Result (Unit {0})
refuse_alias none = ok tt
refuse_alias (some name) = throw ("Unsupported config field: " <> name)

abbrev pub refuse_secret : Option String → Result (Unit {0})
refuse_secret none = ok tt
refuse_secret (some name) = throw (name <> " must be stored in Node-RED credentials")

-- `isPresent(config.db) ? Number(config.db) : undefined`
abbrev pub db_of : Value → Value
db_of v = if is_present v then num (to_number v) else undefined

module _ (node : NodeParsers) where
  -- The part of `normalizeQueueConfig` for Redis.
  unfoldable pub normalize_redis_config : Fields → Fields → Result RedisConfig
  normalize_redis_config config credentials = do
    deployment ← deployment_of config
    port ← to_port (find "port" config) (nat 6379) "Redis"
    queue_name ← queue_name_of config
    default_job_options ← build_default_job_options config
    let tls = to_boolean (find "tls" config) false
    let sentinel_tls = to_boolean (find "sentinelTls" config) false
    cluster_nodes ←
        parse_endpoint_list node (find "clusterNodes" config) (nat 6379) (some tls) "TLS"
    sentinels ←
        parse_endpoint_list node (find "sentinels" config) (nat 26379) (some sentinel_tls)
          "Sentinel TLS"
    complete_deployment deployment (record {
      queue_name = queue_name;
      deployment = deployment;
      host = host_of config;
      port = port;
      db = db_of (find "db" config);
      username = or_undefined (find "username" config);
      password = read_secret credentials "password";
      tls = tls;
      tls_fields = tls_fields_of config credentials;
      prefix = or_undefined (find "prefix" config);
      default_job_options = default_job_options;
      cluster_nodes = cluster_nodes;
      sentinel_master_name = find "sentinelMasterName" config;
      sentinels = sentinels;
      sentinel_username = or_undefined (find "sentinelUsername" config);
      sentinel_password = read_secret credentials "sentinelPassword";
      sentinel_tls = sentinel_tls;
      telemetry = to_boolean (find "telemetry" config) false;
      telemetry_service_name = or_undefined (find "telemetryServiceName" config);
      telemetry_metrics = to_boolean (find "telemetryMetrics" config) false;
    })

  unfoldable pub normalize_queue_config : Fields → Fields → Result QueueConfig
  normalize_queue_config config credentials = do
    refuse_alias (first_present removed_aliases config)
    refuse_secret (first_present secret_names config)
    backend ← normalize_backend config
    if str_eq backend "postgres"
        then (normalize_postgres_config config credentials >>= λ c. ok (postgres c))
        else (normalize_redis_config config credentials >>= λ c. ok (redis c))
