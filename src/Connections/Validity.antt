-- ===== src/Connections/Validity.antt =====
-- `normalizeQueueConfig` of lib/connections.js: what a configuration that is accepted is.
use node_red_contrib_bull.Prelude.{
  ℕ, String, ◌≡◌, refl, true, not, List, [], ◌∷◌, ◌≢◌, arith, All, str_eq, str_eq_iff, ◌≤◌,
}
use node_red_contrib_bull.Js.Text.{trim}
use node_red_contrib_bull.Js.Number.{Number, nat}
use node_red_contrib_bull.Js.Number.Whole.{IsWhole}
use node_red_contrib_bull.Js.Value.{Value, Fields, ok, truthy, to_string, or_value, str}
use node_red_contrib_bull.Js.Results.{
  Returns, returned, thrown, Returns-at, Returns-if, Returns-test, Returns->>=, Returns-bind,
  Returns-of,
}
use node_red_contrib_bull.Js.Objects.{find}
use node_red_contrib_bull.Connections.Coercions.{
  to_port, to_pool_max, normalize_backend, build_default_job_options,
}
use node_red_contrib_bull.Connections.Endpoints.{Endpoint, NodeParsers}
use node_red_contrib_bull.Connections.Config.{
  Deployment, single, cluster, sentinel, RedisConfig, PostgresConfig, QueueConfig, redis, postgres,
  queue_name_of, deployment_of, has_hash_tag, or_default_endpoint, complete_cluster,
  complete_sentinel, cluster_prefix, complete_deployment, first_present, removed_aliases,
  secret_names, refuse_alias, refuse_secret, normalize_postgres_config, normalize_redis_config,
  normalize_queue_config,
}
use node_red_contrib_bull.Connections.Bounds.{
  IsPort, HasPort, nat-IsPort, to_port-IsPort, to_pool_max-IsWhole, parse_endpoint_list-HasPort,
}

-- What each deployment needs in addition.
abbrev pub IsReady : Deployment → RedisConfig → Type 0
IsReady single c = Unit
IsReady cluster c = (c.cluster_nodes ≢ []) × (has_hash_tag (to_string c.prefix) ≡ true)
IsReady sentinel c = (c.sentinels ≢ []) × (truthy c.sentinel_master_name ≡ true)

pub record IsNormalized (c : RedisConfig) : Type 0 where
  pub named : c.queue_name ≢ ""
  pub port_bounds : IsPort c.port
  pub node_bounds : All HasPort c.cluster_nodes
  pub sentinel_bounds : All HasPort c.sentinels
  pub ready : IsReady c.deployment c

pub record IsPostgresReady (c : PostgresConfig) : Type 0 where
  pub named : c.queue_name ≢ ""
  pub port_bounds : IsPort c.postgres.port
  pub pool_bounds : IsWhole 1 c.postgres.max

abbrev pub IsUsable : QueueConfig → Type 0
IsUsable (redis c) = IsNormalized c
IsUsable (postgres c) = IsPostgresReady c

queue_name_of-named : (config : Fields) → Returns (λ name. name ≢ "") (queue_name_of config)
unfolding queue_name_of
queue_name_of-named config =
    let name = trim (to_string (or_value (find "name" config) (str ""))) in
    Returns-test (str_eq name "") (λ h. thrown) (λ h. returned (ground (arith, str_eq_iff name "")))

IsPort-of :
    (value : Value) (n : ℕ) (label : String)
    → 1 ≤ n
    → n ≤ 65535
    → Returns IsPort (to_port value (nat n) label)
IsPort-of value n label least most =
    Returns-of (to_port value (nat n) label)
      (λ p read. to_port-IsPort value (nat n) p label (nat-IsPort n least most) read)

postgres-IsPostgresReady :
    (config credentials : Fields)
    → Returns IsPostgresReady (normalize_postgres_config config credentials)
unfolding normalize_postgres_config
postgres-IsPostgresReady config credentials =
    Returns-bind (queue_name_of-named config) (λ name named.
      Returns-bind (IsPort-of (find "port" config) 5432 "PostgreSQL" (omega arith) (omega arith))
        (λ port bounds. Returns->>= (to_pool_max (find "max" config)) (λ max pool.
          Returns->>= (build_default_job_options config) (λ options _. returned (record {
            named = named;
            port_bounds = bounds;
            pool_bounds = to_pool_max-IsWhole (find "max" config) max pool;
          })))))

default_nonempty :
    (es : List Endpoint) (host : String) (port : Number) → or_default_endpoint es host port ≢ []
default_nonempty [] host port = λ h. ground arith
default_nonempty (e ∷ es) host port = λ h. ground arith

default_bounds :
    (es : List Endpoint) (host : String) (port : Number)
    → All HasPort es
    → IsPort port
    → All HasPort (or_default_endpoint es host port)
default_bounds [] host port hs p = (p, tt)
default_bounds (e ∷ es) host port hs p = hs

-- The fields that hold before the deployment's own checks.
record IsComplete (d : Deployment) (c : RedisConfig) : Type 0 where
  same : c.deployment ≡ d
  named : c.queue_name ≢ ""
  port_bounds : IsPort c.port
  node_bounds : All HasPort c.cluster_nodes
  sentinel_bounds : All HasPort c.sentinels

complete_deployment-IsNormalized :
    (d : Deployment) (c : RedisConfig)
    → IsComplete d c
    → Returns IsNormalized (complete_deployment d c)
unfolding complete_deployment complete_cluster complete_sentinel
complete_deployment-IsNormalized single c h = returned (record {
  named = h.named;
  port_bounds = h.port_bounds;
  node_bounds = h.node_bounds;
  sentinel_bounds = h.sentinel_bounds;
  ready = rw h.same tt;
})
complete_deployment-IsNormalized cluster c h =
    let prefix = or_value c.prefix cluster_prefix in
    Returns-test (not (has_hash_tag (to_string prefix))) (λ t. thrown)
      (λ t. returned (record {
        named = h.named;
        port_bounds = h.port_bounds;
        node_bounds = default_bounds c.cluster_nodes c.host c.port h.node_bounds h.port_bounds;
        sentinel_bounds = h.sentinel_bounds;
        ready = rw h.same (default_nonempty c.cluster_nodes c.host c.port, ground arith);
      }))
complete_deployment-IsNormalized sentinel c h =
    Returns-test (not (truthy c.sentinel_master_name)) (λ t. thrown)
      (λ t. returned (record {
        named = h.named;
        port_bounds = h.port_bounds;
        node_bounds = h.node_bounds;
        sentinel_bounds =
            default_bounds c.sentinels c.host (nat 26379) h.sentinel_bounds
              (nat-IsPort 26379 (omega arith) (omega arith));
        ready = rw h.same (default_nonempty c.sentinels c.host (nat 26379), ground arith);
      }))

module _ (node : NodeParsers) where
  redis-IsNormalized :
      (config credentials : Fields)
      → Returns IsNormalized (normalize_redis_config node config credentials)
  unfolding normalize_redis_config
  redis-IsNormalized config credentials = Returns->>= (deployment_of config) (λ deployment _.
      Returns-bind (IsPort-of (find "port" config) 6379 "Redis" (omega arith) (omega arith))
        (λ port bounds. Returns-bind (queue_name_of-named config) (λ name named.
          Returns->>= (build_default_job_options config) (λ options _.
            Returns-bind
              (parse_endpoint_list-HasPort node (find "clusterNodes" config) (nat 6379) _ "TLS"
                (nat-IsPort 6379 (omega arith) (omega arith)))
              (λ nodes node_bounds.
                Returns-bind
                  (parse_endpoint_list-HasPort node (find "sentinels" config) (nat 26379) _
                    "Sentinel TLS" (nat-IsPort 26379 (omega arith) (omega arith)))
                  (λ sentinels sentinel_bounds.
                    complete_deployment-IsNormalized deployment _ (record {
                      same = refl;
                      named = named;
                      port_bounds = bounds;
                      node_bounds = node_bounds;
                      sentinel_bounds = sentinel_bounds;
                    })))))))

  config-IsUsable :
      (config credentials : Fields)
      → Returns IsUsable (normalize_queue_config node config credentials)
  unfolding normalize_queue_config
  config-IsUsable config credentials =
      Returns->>= (refuse_alias (first_present removed_aliases config)) (λ _ _.
        Returns->>= (refuse_secret (first_present secret_names config)) (λ _ _.
          Returns->>= (normalize_backend config) (λ backend _.
            Returns-if (str_eq backend "postgres")
              (Returns-bind (postgres-IsPostgresReady config credentials) (λ c h. returned h))
              (Returns-bind (redis-IsNormalized config credentials) (λ c h. returned h)))))

  -- A configuration that `normalizeQueueConfig` returns has a queue name, ports from 1 to 65535 and, for
  -- PostgreSQL, a pool of at least one connection; a cluster has nodes and a prefix with a hash tag, and
  -- Sentinel has sentinels and a master name.
  pub normalize_queue_config-IsUsable :
      (config credentials : Fields) (c : QueueConfig)
      → normalize_queue_config node config credentials ≡ ok c
      → IsUsable c
  normalize_queue_config-IsUsable config credentials c h =
      Returns-at c (config-IsUsable config credentials) h
