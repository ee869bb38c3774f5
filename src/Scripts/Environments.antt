-- ===== src/Scripts/Environments.antt =====
-- scripts/run-deployment-tests.js: `deploymentEnv`, `memoryDbEnv` and the list of deployments in `main`.
use node_red_contrib_bull.Prelude.{
  String, ◌<>◌, Bool, true, false, List, [], ◌∷◌, ◌++◌, Option, none, some, str_eq, if◌then◌else◌,
}
use node_red_contrib_bull.Js.Value.{str, Fields, end, field, Result, ok, throw}
use node_red_contrib_bull.Js.Objects.{spread}
use node_red_contrib_bull.Scripts.Shell.{Machine, System, Outcome, Docker, join}
use node_red_contrib_bull.Scripts.Probes.{
  port, non_empty_or, wait_for_single_noauth, wait_for_single_auth, wait_for_single_tls,
  wait_for_cluster_auth, wait_for_cluster_tls, wait_for_sentinel_auth, wait_for_sentinel_tls,
  wait_for_postgres,
}

pub record Deployment : Type 0 where
  pub name : String
  pub build : Bool
  pub env : Fields
  pub wait : Docker → Machine → Option (Outcome Unit)

abbrev var : String → String → Fields → Fields
var name value rest = field name (str value) rest

unfoldable pub deployment_env : String → Fields → Fields
deployment_env name overrides =
    spread
      (var "BULLMQ_DEPLOYMENT_NAME" name (
        var "BULLMQ_BACKEND" "redis"
          (var "BULLMQ_HOST" "127.0.0.1" (var "BULLMQ_PORT" "6379" end))))
      overrides

abbrev credentials : Fields → Fields
credentials rest = var "BULLMQ_USERNAME" "node_red" (var "BULLMQ_PASSWORD" "node-red-pass" rest)

abbrev unverified : Fields → Fields
unverified rest = var "BULLMQ_TLS_REJECT_UNAUTHORIZED" "false" rest

abbrev pub required : List String
required = "MEMORYDB_ENDPOINT" ∷ "MEMORYDB_PORT" ∷ "MEMORYDB_USERNAME" ∷ "MEMORYDB_PASSWORD" ∷ []

module _ (sys : System) where
  abbrev local : String → String → String
  local name fallback = "127.0.0.1:" <> port sys name fallback

  -- A variable of the environment as a template literal or a property reads it, once it is there.
  abbrev pub value_of : String → String
  value_of name = non_empty_or (sys.variable name) ""

  -- `!process.env[name]`
  abbrev pub is_missing : String → Bool
  is_missing name = str_eq (value_of name) ""

  -- `required.filter((name) => !process.env[name])`
  unfoldable pub missing_of : List String → List String
  missing_of [] = []
  missing_of (name ∷ names) =
      let rest = missing_of names in if is_missing name then name ∷ rest else rest

  abbrev pub memory_db : Fields
  memory_db = deployment_env "memorydb" (
      var "BULLMQ_REDIS_MODE" "cluster" (
        var "BULLMQ_CLUSTER_NODES" (value_of "MEMORYDB_ENDPOINT" <> ":" <> value_of "MEMORYDB_PORT")
          (var "BULLMQ_USERNAME" (value_of "MEMORYDB_USERNAME") (
            var "BULLMQ_PASSWORD" (value_of "MEMORYDB_PASSWORD") (
              var "BULLMQ_TLS" (port sys "MEMORYDB_TLS" "true")
                (var "BULLMQ_QUEUE_PREFIX" "{bull}" end))))))

  abbrev pub memory_db_of : List String → Result (Option Fields)
  memory_db_of [] = ok (some memory_db)
  memory_db_of (name ∷ names) =
      throw ("MEMORYDB_ENABLED=1 but missing: " <> join (name ∷ names) ", ")

  -- `none` is `null`.
  unfoldable pub memory_db_env : Result (Option Fields)
  memory_db_env =
      let enabled = memory_db_of (missing_of required) in
      if str_eq (value_of "MEMORYDB_ENABLED") "1" then enabled else ok none

  abbrev pub single : List Deployment
  single =
      record {
        name = "single-noauth";
        build = false;
        env = deployment_env "single-noauth" (
            var "BULLMQ_REDIS_MODE" "single"
              (var "BULLMQ_PORT" (port sys "BULLMQ_SINGLE_NOAUTH_PORT" "16379") end));
        wait = wait_for_single_noauth sys;
      }
      ∷ record {
        name = "single-auth";
        build = false;
        env = deployment_env "single-auth" (
            var "BULLMQ_REDIS_MODE" "single"
              (var "BULLMQ_PORT" (port sys "BULLMQ_SINGLE_AUTH_PORT" "16380") (credentials end)));
        wait = wait_for_single_auth sys;
      }
      ∷ record {
        name = "single-tls";
        build = false;
        env = deployment_env "single-tls" (
            var "BULLMQ_REDIS_MODE" "single" (
              var "BULLMQ_PORT" (port sys "BULLMQ_SINGLE_TLS_PORT" "16387")
                (var "BULLMQ_TLS" "true" (unverified end))));
        wait = wait_for_single_tls sys;
      }
      ∷ []

  abbrev pub clusters : List Deployment
  clusters =
      record {
        name = "cluster-auth";
        build = false;
        env = deployment_env "cluster-auth" (
            var "BULLMQ_REDIS_MODE" "cluster" (
              var "BULLMQ_CLUSTER_NODES"
                (local "BULLMQ_CLUSTER_PORT_A" "17000"
                  <> ","
                  <> local "BULLMQ_CLUSTER_PORT_B" "17001")
                (credentials (var "BULLMQ_QUEUE_PREFIX" "{bull}" end))));
        wait = wait_for_cluster_auth sys;
      }
      ∷ record {
        name = "cluster-tls";
        build = false;
        env = deployment_env "cluster-tls" (
            var "BULLMQ_REDIS_MODE" "cluster" (
              var "BULLMQ_CLUSTER_NODES"
                (local "BULLMQ_CLUSTER_TLS_PORT_A" "17002"
                  <> ","
                  <> local "BULLMQ_CLUSTER_TLS_PORT_B" "17003")
                (var "BULLMQ_TLS" "true" (unverified (var "BULLMQ_QUEUE_PREFIX" "{bull}" end)))));
        wait = wait_for_cluster_tls sys;
      }
      ∷ []

  abbrev pub sentinels : List Deployment
  sentinels =
      record {
        name = "sentinel-auth";
        build = false;
        env = deployment_env "sentinel-auth" (
            var "BULLMQ_REDIS_MODE" "sentinel" (
              var "BULLMQ_PORT" (port sys "BULLMQ_SENTINEL_MASTER_PORT" "16381") (
                var "BULLMQ_SENTINELS"
                  (local "BULLMQ_SENTINEL_PORT_A" "26390"
                    <> ","
                    <> local "BULLMQ_SENTINEL_PORT_B" "26391"
                    <> ","
                    <> local "BULLMQ_SENTINEL_PORT_C" "26392")
                  (var "BULLMQ_SENTINEL_MASTER_NAME" "mymaster" (credentials end)))));
        wait = wait_for_sentinel_auth sys;
      }
      ∷ record {
        name = "sentinel-tls";
        build = false;
        env = deployment_env "sentinel-tls" (
            var "BULLMQ_REDIS_MODE" "sentinel" (
              var "BULLMQ_PORT" (port sys "BULLMQ_SENTINEL_TLS_MASTER_PORT" "16384") (
                var "BULLMQ_SENTINELS"
                  (local "BULLMQ_SENTINEL_TLS_PORT_A" "26393"
                    <> ","
                    <> local "BULLMQ_SENTINEL_TLS_PORT_B" "26394"
                    <> ","
                    <> local "BULLMQ_SENTINEL_TLS_PORT_C" "26395")
                  (var "BULLMQ_SENTINEL_MASTER_NAME" "mymaster" (
                    var "BULLMQ_TLS" "true"
                      (var "BULLMQ_SENTINEL_TLS" "true" (unverified end)))))));
        wait = wait_for_sentinel_tls sys;
      }
      ∷ []

  abbrev postgres_env : String → String → String → Fields → Fields
  postgres_env name variable fallback rest = deployment_env name (
      var "BULLMQ_BACKEND" "postgres" (
        var "BULLMQ_PORT" (port sys variable fallback)
          (var "BULLMQ_DATABASE" "bullmq" (credentials rest))))

  abbrev pub postgres : List Deployment
  postgres =
      record {
        name = "postgres-plain";
        build = false;
        env = postgres_env "postgres-plain" "BULLMQ_POSTGRES_PLAIN_PORT" "15432" end;
        wait = wait_for_postgres sys "postgres-plain";
      }
      ∷ record {
        name = "postgres-tls";
        build = true;
        env =
            postgres_env "postgres-tls" "BULLMQ_POSTGRES_TLS_PORT" "15433"
              (var "BULLMQ_TLS" "true" (unverified end));
        wait = wait_for_postgres sys "postgres-tls";
      }
      ∷ []

  unfoldable pub deployments : List Deployment
  deployments = single ++ clusters ++ sentinels ++ postgres
