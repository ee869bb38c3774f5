-- ===== src/Connections/Options.antt =====
-- lib/connections.js: the options of the connections and of the BullMQ objects, by role.
use node_red_contrib_bull.Prelude.{
  ℕ, zero, suc, ◌*◌, ◌^◌, String, Bool, true, false, not, ◌&&◌, List, Option, none, some, ltb,
  if◌then◌else◌,
}
use node_red_contrib_bull.Js.Number.{Number, is_nan}
use node_red_contrib_bull.Js.Value.{Value, undefined, null, num}
use node_red_contrib_bull.Connections.Endpoints.{Endpoint}
use node_red_contrib_bull.Connections.Config.{
  Deployment, single, cluster, sentinel, TlsOptions, RedisConfig, QueueConfig, redis, postgres,
  or_undefined, build_tls_options,
}

pub data Role : Type 0 where
  producer worker events : Role

abbrev pub min_ℕ : ℕ → ℕ → ℕ
min_ℕ a b = if ltb b a then b else a

-- `Math.min(1000 * 2 ** (attempt - 1), 20000)`; ioredis counts attempts from 1, and 1000 / 2 is what
-- the formula gives for 0.
unfoldable pub reconnect_backoff : ℕ → ℕ
reconnect_backoff zero = 500
reconnect_backoff (suc k) = min_ℕ (1000 * 2 ^ k) 20000

abbrev pub is_consumer_role : Role → Bool
is_consumer_role worker = true
is_consumer_role events = true
is_consumer_role producer = false

-- `null` is `none`: retry for ever.
abbrev pub retry_value_for_role : Role → Option ℕ
retry_value_for_role role = if is_consumer_role role then none else some 1

-- What the options of every connection have; an absent property is `undefined` or `none`.
pub record SocketOptions : Type 0 where
  pub max_retries_per_request : Option ℕ
  pub enable_ready_check : Bool
  pub connect_timeout : ℕ
  pub retry_strategy : ℕ → ℕ
  pub username : Value
  pub password : Value
  pub tls : Option TlsOptions

pub record SentinelOptions : Type 0 where
  pub sentinels : List Endpoint
  pub name : Value
  pub sentinel_retry_strategy : ℕ → ℕ
  pub sentinel_username : Value
  pub sentinel_password : Value
  pub enable_tls_for_sentinel_mode : Bool
  pub sentinel_tls : Option TlsOptions

pub record SingleOptions : Type 0 where
  pub socket : SocketOptions
  pub open socket use *
  pub host : Option String
  pub port : Option Number
  pub db : Value
  pub sentinel : Option SentinelOptions

pub record ClusterOptions : Type 0 where
  pub redis_options : SocketOptions
  pub slots_refresh_timeout : ℕ
  pub max_redirections : ℕ
  pub dns_lookup : String → Value × String
  pub cluster_retry_strategy : ℕ → ℕ

-- The descriptor's `kind`, with its options.
pub data Descriptor : Type 0 where
  cluster_kind : List Endpoint → ClusterOptions → Descriptor
  single_kind : SingleOptions → Descriptor

unfoldable pub socket_options : RedisConfig → Role → SocketOptions
socket_options config role = record {
  max_retries_per_request = retry_value_for_role role;
  enable_ready_check = true;
  connect_timeout = 10000;
  retry_strategy = reconnect_backoff;
  username = or_undefined config.username;
  password = or_undefined config.password;
  tls = build_tls_options config.tls_fields config.tls;
}

-- `config.db`, unless it is NaN.
abbrev pub usable_db : Value → Value
usable_db (num n) = if is_nan n then undefined else num n
usable_db v = v

unfoldable pub build_standalone_options : RedisConfig → Role → SingleOptions
build_standalone_options config role = record {
  socket = socket_options config role;
  host = some config.host;
  port = some config.port;
  db = usable_db config.db;
  sentinel = none;
}

unfoldable pub sentinel_options : RedisConfig → SentinelOptions
sentinel_options config = record {
  sentinels = config.sentinels;
  name = config.sentinel_master_name;
  sentinel_retry_strategy = reconnect_backoff;
  sentinel_username = or_undefined config.sentinel_username;
  sentinel_password = or_undefined config.sentinel_password;
  enable_tls_for_sentinel_mode = config.sentinel_tls;
  sentinel_tls = build_tls_options config.tls_fields config.sentinel_tls;
}

-- What the callback of `dnsLookup` is called with: no error, and the name as it stands.
abbrev pub dns_lookup : String → Value × String
dns_lookup address = (null, address)

-- The branches of `buildRedisDescriptor`.
abbrev pub descriptor_for : Deployment → RedisConfig → Role → Descriptor
descriptor_for cluster config role = cluster_kind config.cluster_nodes (record {
  redis_options = socket_options config role;
  slots_refresh_timeout = 2000;
  max_redirections = 16;
  dns_lookup = dns_lookup;
  cluster_retry_strategy = reconnect_backoff;
})
descriptor_for sentinel config role = single_kind (record (build_standalone_options config role) {
  host = none;
  port = none;
  sentinel = some (sentinel_options config);
})
descriptor_for single config role = single_kind (build_standalone_options config role)

unfoldable pub build_redis_descriptor : RedisConfig → Role → Descriptor
unfolding build_standalone_options socket_options sentinel_options build_tls_options
build_redis_descriptor config role = descriptor_for config.deployment config role

-- The constructors of ioredis, over a type of connections.
pub record IoRedis (K : Type 0) : Type 0 where
  pub redis : SingleOptions → K
  pub cluster : List Endpoint → ClusterOptions → K

unfoldable pub create_redis_connection : {K : Type 0} → Descriptor → IoRedis K → K
create_redis_connection (cluster_kind nodes options) io = io.cluster nodes options
create_redis_connection (single_kind options) io = io.redis options

-- The options that every BullMQ constructor gets, over the types of connections and of telemetry.
pub record BullmqOptions (K T : Type 0) : Type 0 where
  pub connection : Option K
  pub prefix : Value
  pub telemetry : Option T
  pub skip_waiting_for_ready : Bool

abbrev pub prefix_of : QueueConfig → Value
prefix_of (redis c) = or_undefined c.prefix
prefix_of (postgres c) = undefined

abbrev pub is_postgres : QueueConfig → Bool
is_postgres (redis c) = false
is_postgres (postgres c) = true

unfoldable pub build_bullmq_options :
    {K T : Type 0} → QueueConfig → Option K → Option T → Role → BullmqOptions K T
build_bullmq_options config connection telemetry role = record {
  connection = connection;
  prefix = prefix_of config;
  telemetry = telemetry;
  skip_waiting_for_ready = not (is_consumer_role role) && not (is_postgres config);
}
