-- ===== src/Examples/Configurations.antt =====
-- Configurations of a Redis cluster and of PostgreSQL, with parsers that know one URL.
use node_red_contrib_bull.Prelude.{
  none, String, ◌≡◌, refl, true, false, [], ◌∷◌, ◌++◌, some, ◌⊎◌, ◌<>◌, if◌then◌else◌,
}
use node_red_contrib_bull.Js.Text.{elem, split_list, trim, to_lower, is_prefix}
use node_red_contrib_bull.Js.Number.{nat, of_string, is_integer, is_below, is_above}
use node_red_contrib_bull.Js.Value.{
  undefined, str, bool, Fields, end, field, ok, throw, is_present, truthy, or_value, to_string,
  to_number, is_object, is_undefined,
}
use node_red_contrib_bull.Js.Objects.{find, assign, lookup, is_some}
use node_red_contrib_bull.Connections.Coercions.{
  to_boolean, to_port, normalize_backend, read_secret, to_keep_count, build_default_job_options,
}
use node_red_contrib_bull.Connections.Endpoints.{
  Url, NodeParsers, has_scheme, parse_endpoint_text, strip_brackets, endpoint_of_url,
  parse_endpoint, parse_all, parse_endpoint_list,
}
use node_red_contrib_bull.Connections.Config.{
  cluster, RedisConfig, redis, normalize_queue_config, normalize_redis_config,
  normalize_postgres_config, secret_names, removed_aliases, first_present, queue_name_of,
  deployment_of, has_hash_tag, complete_cluster, complete_deployment, first_present, tls_fields_of,
}
use node_red_contrib_bull.Connections.Options.{
  IoRedis, single_kind, cluster_kind, Descriptor, producer, build_redis_descriptor,
  build_bullmq_options,
}
use node_red_contrib_bull.Connections.Validity.{IsUsable, normalize_queue_config-IsUsable}
use node_red_contrib_bull.Connections.Selection.{normalize_queue_config_refuses}
use node_red_contrib_bull.Connections.Isolation.{postgres_names, normalize_postgres_config-assign}
use node_red_contrib_bull.Connections.Urls.{IsSource, parse_endpoint_text-IsSource}
use node_red_contrib_bull.Connections.Roles.{socket_of, build_redis_descriptor-role}

abbrev known_url : Url
known_url = record {
  protocol = "rediss:";
  username = "";
  password = "";
  hostname = "cache";
  port = "7000";
}

abbrev parsers : NodeParsers
parsers = record { is_ip = λ text. false; parse_url = λ text. some known_url }

abbrev cluster_config : Fields
cluster_config = field "name" (str "mail") (
    field "deployment" (str "cluster")
      (field "tls" (bool true) (field "clusterNodes" (str "rediss://cache:7000") end)))

abbrev postgres_config : Fields
postgres_config = field "name" (str "mail") (field "backend" (str " Postgres ") end)

abbrev cluster_result : RedisConfig
cluster_result = record {
  queue_name = "mail";
  deployment = cluster;
  host = "localhost";
  port = nat 6379;
  db = undefined;
  username = undefined;
  password = undefined;
  tls = true;
  tls_fields = record {
    tls_reject_unauthorized = true;
    tls_server_name = undefined;
    tls_ca = undefined;
    tls_cert = undefined;
    tls_key = undefined;
  };
  prefix = str "{bull}";
  default_job_options = undefined;
  cluster_nodes = record { host = "cache"; port = nat 7000 } ∷ [];
  sentinel_master_name = undefined;
  sentinels = [];
  sentinel_username = undefined;
  sentinel_password = undefined;
  sentinel_tls = false;
  telemetry = false;
  telemetry_service_name = undefined;
  telemetry_metrics = false;
}

cluster_accepted : normalize_queue_config parsers cluster_config end ≡ ok (redis cluster_result)
unfolding normalize_queue_config normalize_redis_config complete_deployment complete_cluster
    has_hash_tag deployment_of queue_name_of first_present tls_fields_of to_boolean to_port
    normalize_backend read_secret to_keep_count build_default_job_options parse_endpoint_list
    parse_all parse_endpoint parse_endpoint_text endpoint_of_url strip_brackets has_scheme find
    lookup is_present truthy or_value to_string to_number of_string is_integer is_below is_above
    is_object is_undefined elem to_lower trim split_list is_prefix
cluster_accepted = refl

normalize_queue_config-IsUsable_example : IsUsable (redis cluster_result)
normalize_queue_config-IsUsable_example =
    normalize_queue_config-IsUsable parsers cluster_config end (redis cluster_result)
      cluster_accepted

-- Constructors that note what they are called with.
abbrev noted : IoRedis Descriptor
noted = record { redis = single_kind; cluster = cluster_kind }

abbrev leaky_config : Fields
leaky_config = field "password" (str "x") postgres_config

leaky_name : elem "password" (secret_names ++ removed_aliases) ≡ true
unfolding elem
leaky_name = refl

leaky_present : is_present (find "password" leaky_config) ≡ true
unfolding is_present find lookup
leaky_present = refl

normalize_queue_config_refuses_example :
    (other : String) × (is_present (find other leaky_config) ≡ true)
    × (((elem other removed_aliases ≡ true)
          × (normalize_queue_config parsers leaky_config end
              ≡ throw ("Unsupported config field: " <> other)))
        ⊎ ((elem other secret_names ≡ true)
            × (first_present removed_aliases leaky_config ≡ none)
            × (normalize_queue_config parsers leaky_config end
                ≡ throw (other <> " must be stored in Node-RED credentials"))))
normalize_queue_config_refuses_example =
    normalize_queue_config_refuses parsers leaky_config end "password" leaky_name leaky_present

nodes_ignored : elem "clusterNodes" postgres_names ≡ false
unfolding elem
nodes_ignored = refl

normalize_postgres_config-assign_example :
    normalize_postgres_config (assign "clusterNodes" (str "bad:0") postgres_config) end
    ≡ normalize_postgres_config postgres_config end
normalize_postgres_config-assign_example =
    normalize_postgres_config-assign "clusterNodes" (str "bad:0") postgres_config end nodes_ignored

cache_accepted :
    parse_endpoint_text parsers "rediss://cache:7000" (nat 6379) (some true) "TLS"
    ≡ ok (record { host = "cache"; port = nat 7000 })
unfolding parse_endpoint_text endpoint_of_url strip_brackets has_scheme to_port is_present to_number
    of_string is_integer is_below is_above is_prefix trim
cache_accepted = refl

parse_endpoint_text-IsSource_example :
    IsSource
      (has_scheme "rediss://cache:7000")
      true
      (parsers.parse_url (
        if has_scheme "rediss://cache:7000"
        then "rediss://cache:7000"
        else "redis://" <> "rediss://cache:7000"))
      (record { host = "cache"; port = nat 7000 })
parse_endpoint_text-IsSource_example =
    parse_endpoint_text-IsSource parsers "rediss://cache:7000" (nat 6379) true "TLS"
      (record { host = "cache"; port = nat 7000 }) refl cache_accepted

build_redis_descriptor-role_example :
    (is_some (socket_of (build_redis_descriptor cluster_result producer)).tls ≡ cluster_result.tls)
    × (is_some (socket_of (build_redis_descriptor cluster_result producer)).max_retries_per_request
        ≡ (build_bullmq_options {K = String} {T = String}
            (redis cluster_result)
            (some "connection")
            (some "telemetry")
            producer).skip_waiting_for_ready)
build_redis_descriptor-role_example =
    build_redis_descriptor-role {K = String} {T = String} cluster_result producer
      (some "connection") (some "telemetry")
