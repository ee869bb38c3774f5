-- ===== src/Connections/Roles.antt =====
-- The reconnection policy of lib/connections.js, and the options of each role.
use native.Mathlib.Nat.{pow-le-pow_right, mul-le-mul_left}
use node_red_contrib_bull.Prelude.{
  ℕ, zero, suc, ◌*◌, ◌^◌, ◌≤◌, ◌≡◌, refl, Bool, true, false, not, [], ◌≢◌, Option, none, some,
  arith, ◌&&◌, subst,
}
use node_red_contrib_bull.Js.Value.{Fields, ok, truthy}
use node_red_contrib_bull.Js.Objects.{is_some}
use node_red_contrib_bull.Connections.Endpoints.{NodeParsers}
use node_red_contrib_bull.Connections.Config.{
  Deployment, single, cluster, sentinel, RedisConfig, redis, normalize_queue_config,
  build_tls_options,
}
use node_red_contrib_bull.Connections.Options.{
  Role, producer, worker, events, reconnect_backoff, min_ℕ, is_consumer_role, retry_value_for_role,
  SocketOptions, Descriptor, cluster_kind, single_kind, descriptor_for, build_redis_descriptor,
  build_standalone_options, socket_options, sentinel_options, build_bullmq_options, is_postgres,
}
use node_red_contrib_bull.Connections.Validity.{
  IsReady, IsNormalized, normalize_queue_config-IsUsable,
}

min-le : (a b : ℕ) → min_ℕ a b ≤ b
min-le a b = ground arith

le-min : (a b c : ℕ) → c ≤ a → c ≤ b → c ≤ min_ℕ a b
le-min a b c h k = ground arith

min_mono : (a b c : ℕ) → a ≤ b → min_ℕ a c ≤ min_ℕ b c
min_mono a b c h = ground arith

power_le : (k l : ℕ) → k ≤ l → 1000 * 2 ^ k ≤ 1000 * 2 ^ l
power_le k l h = mul-le-mul_left 1000 (pow-le-pow_right (omega arith) h)

-- From the first attempt on, the delay before a reconnection is from 1 to 20 seconds.
pub reconnect_backoff-bounds :
    (attempt : ℕ)
    → 1 ≤ attempt
    → (1000 ≤ reconnect_backoff attempt) × (reconnect_backoff attempt ≤ 20000)
unfolding reconnect_backoff
reconnect_backoff-bounds zero h = ground arith
reconnect_backoff-bounds (suc k) h = (
  le-min (1000 * 2 ^ k) 20000 1000 (power_le 0 k (omega arith)) (omega arith),
  min-le (1000 * 2 ^ k) 20000,
)

-- A later attempt never waits for less time than an earlier one.
pub reconnect_backoff_mono : (a b : ℕ) → a ≤ b → reconnect_backoff a ≤ reconnect_backoff b
unfolding reconnect_backoff
reconnect_backoff_mono zero zero h = ground arith
reconnect_backoff_mono zero (suc b) h =
    le-min (1000 * 2 ^ b) 20000 500 (ground (arith, power_le 0 b (omega arith))) (omega arith)
reconnect_backoff_mono (suc a) zero h = ground arith
reconnect_backoff_mono (suc a) (suc b) h =
    min_mono (1000 * 2 ^ a) (1000 * 2 ^ b) 20000 (power_le a b (omega arith))

abbrev pub socket_of : Descriptor → SocketOptions
socket_of (cluster_kind nodes o) = o.redis_options
socket_of (single_kind o) = o.socket

-- There is a server to connect to, and for Sentinel a master to ask for.
abbrev pub HasTarget : Descriptor → Type 0
HasTarget (cluster_kind nodes o) = nodes ≢ []
HasTarget (single_kind o) = elim o.sentinel [
  | none ↦ (is_some o.host ≡ true) × (is_some o.port ≡ true)
  | some s ↦ (s.sentinels ≢ []) × (truthy s.name ≡ true)
]

target_for :
    (d : Deployment) (c : RedisConfig) (role : Role)
    → c.deployment ≡ d
    → IsNormalized c
    → HasTarget (descriptor_for d c role)
unfolding build_standalone_options sentinel_options
target_for single c role same h = (refl, refl)
target_for cluster c role same h = (subst (λ d. IsReady d c) same h.ready).0
target_for sentinel c role same h = subst (λ d. IsReady d c) same h.ready

-- Whatever the role, the descriptor of a Redis configuration that `normalizeQueueConfig` returns
-- says where to connect to: nodes of a cluster, sentinels and the name of their master, or else a
-- host and a port.
pub normalize_queue_config-HasTarget :
    (node : NodeParsers) (config credentials : Fields) (c : RedisConfig) (role : Role)
    → normalize_queue_config node config credentials ≡ ok (redis c)
    → HasTarget (build_redis_descriptor c role)
unfolding build_redis_descriptor
normalize_queue_config-HasTarget node config credentials c role h =
    target_for c.deployment c role refl
      (normalize_queue_config-IsUsable node config credentials (redis c) h)

same_socket :
    (d : Deployment) (c : RedisConfig) (role : Role)
    → socket_of (descriptor_for d c role) ≡ socket_options c role
unfolding build_standalone_options
same_socket single c role = refl
same_socket cluster c role = refl
same_socket sentinel c role = refl

tls_present : (c : RedisConfig) (b : Bool) → is_some (build_tls_options c.tls_fields b) ≡ b
unfolding build_tls_options
tls_present c true = refl
tls_present c false = refl

-- For every deployment and role, the connection has TLS options exactly if the configuration asks for
-- TLS, and it limits the retries of a command exactly if BullMQ is told not to wait for it to be ready.
pub build_redis_descriptor-role :
    {K T : Type 0} (c : RedisConfig) (role : Role) (connection : Option K) (telemetry : Option T)
    → (is_some (socket_of (build_redis_descriptor c role)).tls ≡ c.tls)
      × (is_some (socket_of (build_redis_descriptor c role)).max_retries_per_request
          ≡ (build_bullmq_options (redis c) connection telemetry role).skip_waiting_for_ready)
unfolding build_redis_descriptor build_bullmq_options socket_options
build_redis_descriptor-role c role connection telemetry =
    let same = same_socket c.deployment c role in rw same (tls_present c c.tls, limits role)
  where
    limits :
        (r : Role)
        → is_some (retry_value_for_role r) ≡ not (is_consumer_role r) && not (is_postgres (redis c))
    limits producer = refl
    limits worker = refl
    limits events = refl
