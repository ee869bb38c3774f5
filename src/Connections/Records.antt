-- ===== src/Connections/Records.antt =====
-- lib/connections.js: the configurations that `normalizeQueueConfig` returns, and `buildTlsOptions`. A field
-- that the code leaves `undefined` is the value `undefined` here.
use node_red_contrib_bull.Prelude.{ℕ, String, Bool, true, false, List, Option, none, some}
use node_red_contrib_bull.Js.Number.{Number}
use node_red_contrib_bull.Js.Value.{Value, undefined, or_value}
use node_red_contrib_bull.Connections.Endpoints.{Endpoint}

pub data Deployment : Type 0 where
  single cluster sentinel : Deployment

-- The options of `tls.connect`.
pub record TlsOptions : Type 0 where
  pub reject_unauthorized : Bool
  pub servername : Value
  pub ca : Value
  pub cert : Value
  pub key : Value

-- The TLS fields of a configuration.
pub record TlsFields : Type 0 where
  pub tls_reject_unauthorized : Bool
  pub tls_server_name : Value
  pub tls_ca : Value
  pub tls_cert : Value
  pub tls_key : Value

pub record RedisConfig : Type 0 where
  pub queue_name : String
  pub deployment : Deployment
  pub host : String
  pub port : Number
  pub db : Value
  pub username : Value
  pub password : Value
  pub tls : Bool
  pub tls_fields : TlsFields
  pub prefix : Value
  pub default_job_options : Value
  pub cluster_nodes : List Endpoint
  pub sentinel_master_name : Value
  pub sentinels : List Endpoint
  pub sentinel_username : Value
  pub sentinel_password : Value
  pub sentinel_tls : Bool
  pub telemetry : Bool
  pub telemetry_service_name : Value
  pub telemetry_metrics : Bool

-- The pool configuration that `pg` gets.
pub record PoolConfig : Type 0 where
  pub host : String
  pub port : Number
  pub database : Value
  pub user : Value
  pub password : Value
  pub schema : Value
  pub max : Number
  pub connection_timeout_millis : ℕ
  pub migrate : Bool
  pub ssl : Option TlsOptions

pub record PostgresConfig : Type 0 where
  pub queue_name : String
  pub postgres : PoolConfig
  pub default_job_options : Value
  pub telemetry : Bool
  pub telemetry_service_name : Value
  pub telemetry_metrics : Bool

pub data QueueConfig : Type 0 where
  redis : RedisConfig → QueueConfig
  postgres : PostgresConfig → QueueConfig

-- `value || undefined`
abbrev pub or_undefined : Value → Value
or_undefined v = or_value v undefined

unfoldable pub build_tls_options : TlsFields → Bool → Option TlsOptions
build_tls_options t false = none
build_tls_options t true = some (record {
  reject_unauthorized = t.tls_reject_unauthorized;
  servername = or_undefined t.tls_server_name;
  ca = or_undefined t.tls_ca;
  cert = or_undefined t.tls_cert;
  key = or_undefined t.tls_key;
})
