-- ===== src/Scripts/Probes.antt =====
-- scripts/run-deployment-tests.js: the checks that tell whether a store answers, from `waitForSingleNoAuth` to
-- `waitForSentinelTls`, and `waitForPostgres`. A regular expression without operators is a search for its
-- text; so is the one made of a port, which is a text of digits.
pub mod Successes
use node_red_contrib_bull.Prelude.{
  ℕ, suc, String, ◌<>◌, Bool, true, false, ◌&&◌, List, [], ◌∷◌, ◌++◌, Option, none, some, leb,
  str_eq, if◌then◌else◌,
}
use node_red_contrib_bull.Js.Text.{includes}
use node_red_contrib_bull.Js.Value.{Result, ok, err}
use node_red_contrib_bull.Scripts.Shell.{
  Exit, Machine, System, Outcome, Docker, succeeded, compose_args, docker_capture, redis_auth_args,
}
use node_red_contrib_bull.Scripts.Waiting.{Probed, Check, wait_until}

-- `process.env.NAME || fallback`
abbrev pub non_empty_or : Option String → String → String
non_empty_or none fallback = fallback
non_empty_or (some s) fallback = if str_eq s "" then fallback else s

abbrev pub with_ready : {S : Type 0} → (Exit → S × Bool) → Result Exit → Result (S × Probed)
with_ready f (err e) = err e
with_ready f (ok exit) = let (s, ready) = f exit in ok (s, record { exit = exit; ready = ready })

-- The state and the readiness after a probe of PostgreSQL with this status: two successes in a row.
abbrev pub count_successes : ℕ → Exit → ℕ × Bool
count_successes consecutive exit =
    let consecutive = if succeeded exit.status then suc consecutive else 0 in
    (consecutive, leb 2 consecutive)

abbrev pub pg_isready : List String
pg_isready =
    "exec" ∷ "-T" ∷ "postgres" ∷ "pg_isready" ∷ "-h" ∷ "127.0.0.1" ∷ "-U" ∷ "node_red" ∷ "-d"
    ∷ "bullmq" ∷ "-t" ∷ "2" ∷ []

module _ (sys : System) where
  abbrev pub port : String → String → String
  port name fallback = non_empty_or (sys.variable name) fallback

  -- `dockerCapture(composeArgs(name, args))`, then `result.ready = ...`.
  unfoldable pub probe :
      {S : Type 0} → Docker → String → List String → (S → Exit → S × Bool) → Check S
  probe d name args ready s m =
      let o = docker_capture sys d (compose_args sys name args) m in
      record { result = with_ready (ready s) o.result; machine = o.machine }

  abbrev pub on_stdout : (String → Bool) → Unit {0} → Exit → Unit {0} × Bool
  on_stdout test _ exit = (tt, test exit.stdout)

  abbrev pub redis_cli : String → List String → List String
  redis_cli service args = "exec" ∷ "-T" ∷ service ∷ "redis-cli" ∷ args

  unfoldable pub wait_for_single_noauth : Docker → Machine → Option (Outcome Unit)
  wait_for_single_noauth d =
      wait_until "single-noauth Redis"
        (probe d "single-noauth" (redis_cli "redis" ("PING" ∷ []))
          (on_stdout (λ out. includes out "PONG")))
        tt 30000

  unfoldable pub wait_for_single_auth : Docker → Machine → Option (Outcome Unit)
  wait_for_single_auth d =
      wait_until "single-auth Redis"
        (probe d "single-auth" (redis_cli "redis" (redis_auth_args ++ "PING" ∷ []))
          (on_stdout (λ out. includes out "PONG")))
        tt 30000

  unfoldable pub wait_for_single_tls : Docker → Machine → Option (Outcome Unit)
  wait_for_single_tls d =
      wait_until "single-tls Redis"
        (probe d "single-tls"
          (redis_cli "redis"
            ("--tls" ∷ "--insecure" ∷ "-p" ∷ port "BULLMQ_SINGLE_TLS_PORT" "16387" ∷ "PING" ∷ []))
          (on_stdout (λ out. includes out "PONG")))
        tt 30000

  unfoldable pub wait_for_cluster_auth : Docker → Machine → Option (Outcome Unit)
  wait_for_cluster_auth d =
      wait_until "cluster-auth Redis Cluster"
        (probe d "cluster-auth"
          (redis_cli "redis-7000" (
            "-p" ∷ port "BULLMQ_CLUSTER_PORT_A" "17000" ∷ redis_auth_args
            ++ "CLUSTER" ∷ "INFO" ∷ []))
          (on_stdout (λ out. includes out "cluster_state:ok")))
        tt 45000

  unfoldable pub wait_for_cluster_tls : Docker → Machine → Option (Outcome Unit)
  wait_for_cluster_tls d =
      wait_until "cluster-tls Redis Cluster"
        (probe d "cluster-tls"
          (redis_cli "redis-17002" (
            "--tls"
            ∷ "--insecure"
            ∷ "-p"
            ∷ port "BULLMQ_CLUSTER_TLS_PORT_A" "17002"
            ∷ "CLUSTER"
            ∷ "INFO"
            ∷ []))
          (on_stdout (λ out. includes out "cluster_state:ok")))
        tt 45000

  unfoldable pub wait_for_sentinel_auth : Docker → Machine → Option (Outcome Unit)
  wait_for_sentinel_auth d =
      wait_until "sentinel-auth Redis Sentinel"
        (probe d "sentinel-auth"
          (redis_cli "sentinel-26379" (
            "-p"
            ∷ port "BULLMQ_SENTINEL_PORT_A" "26390"
            ∷ "SENTINEL"
            ∷ "get-master-addr-by-name"
            ∷ "mymaster"
            ∷ []))
          (on_stdout (λ out.
            includes out "127.0.0.1" && includes out (port "BULLMQ_SENTINEL_MASTER_PORT" "16381"))))
        tt 45000

  unfoldable pub wait_for_sentinel_tls : Docker → Machine → Option (Outcome Unit)
  wait_for_sentinel_tls d =
      wait_until "sentinel-tls Redis Sentinel"
        (probe d "sentinel-tls"
          (redis_cli "sentinel-26393" (
            "--tls"
            ∷ "--insecure"
            ∷ "-p"
            ∷ port "BULLMQ_SENTINEL_TLS_PORT_A" "26393"
            ∷ "SENTINEL"
            ∷ "get-master-addr-by-name"
            ∷ "mymaster"
            ∷ []))
          (on_stdout (λ out.
            includes out "127.0.0.1"
            && includes out (port "BULLMQ_SENTINEL_TLS_MASTER_PORT" "16384"))))
        tt 45000

  unfoldable pub wait_for_postgres : String → Docker → Machine → Option (Outcome Unit)
  wait_for_postgres name d =
      wait_until (name <> " PostgreSQL") (probe d name pg_isready count_successes) 0 120000
