-- ===== src/Nodes/Failures.antt =====
-- bull-queue.js: `describeBackendFailure`, for an instance of Error. The versions of PostgreSQL that it
-- names are constants of BullMQ.
use node_red_contrib_bull.Prelude.{String, ◌<>◌, str_eq, if◌then◌else◌}
use node_red_contrib_bull.Js.Text.{includes}
use node_red_contrib_bull.Js.Value.{
  ErrorClass, schema_migration_required, schema_version_mismatch, unsupported_postgres_version,
  failure, to_string,
}

pub record Failure : Type 0 where
  pub category : String
  pub message : String

-- `err && err.message ? err.message : String(err)`
abbrev pub failure_message : ErrorClass → String → String
failure_message kind m = if str_eq m "" then to_string (failure kind m) else m

-- The two branches after the tests of the class.
abbrev pub other_failure : String → Failure
other_failure message =
    if includes message "npm install pg"
    then record { category = "pg-missing"; message = message }
    else record { category = "generic"; message = "BullMQ backend is unavailable: " <> message }

module _ (minimum_version recommended_version : String) where
  unfoldable pub describe_backend_failure : ErrorClass → String → Failure
  describe_backend_failure schema_migration_required m = record {
    category = "schema-migration-required";
    message =
        failure_message schema_migration_required m
        <> " Set the queue configuration node's \"migrate\" property to true so this node initialises the schema, or run BullMQ's PostgreSQL migrations against the database yourself before deploying.";
  }
  describe_backend_failure schema_version_mismatch m = record {
    category = "schema-version-mismatch";
    message =
        failure_message schema_version_mismatch m
        <> " Upgrade this Node-RED package to a release that uses the required BullMQ major; PostgreSQL schema downgrades are not supported.";
  }
  describe_backend_failure unsupported_postgres_version m = record {
    category = "unsupported-postgres-version";
    message =
        failure_message unsupported_postgres_version m
        <> " BullMQ's PostgreSQL backend requires server version "
        <> minimum_version
        <> " or newer ("
        <> recommended_version
        <> "+ recommended).";
  }
  describe_backend_failure kind m = other_failure (failure_message kind m)
