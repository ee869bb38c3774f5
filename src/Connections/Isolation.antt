-- ===== src/Connections/Isolation.antt =====
-- `normalizePostgresConfig` of lib/connections.js: which fields of a configuration it depends on.
use node_red_contrib_bull.Prelude.{
  String, ◌≡◌, refl, true, false, List, [], ◌∷◌, arith, str_eq, str_eq_iff, sym,
}
use node_red_contrib_bull.Js.Text.{elem}
use node_red_contrib_bull.Js.Value.{Value, Fields}
use node_red_contrib_bull.Js.Objects.{find, assign, lookup-assign}
use node_red_contrib_bull.Connections.Coercions.{build_default_job_options}
use node_red_contrib_bull.Connections.Config.{
  normalize_postgres_config, queue_name_of, tls_fields_of,
}

-- The fields of a configuration for PostgreSQL.
abbrev pub postgres_names : List String
postgres_names =
    "name" ∷ "port" ∷ "max" ∷ "removeOnComplete" ∷ "removeOnFail" ∷ "address" ∷ "database"
    ∷ "username" ∷ "schema" ∷ "migrate" ∷ "tls" ∷ "tlsRejectUnauthorized" ∷ "tlsServerName"
    ∷ "telemetry" ∷ "telemetryServiceName" ∷ "telemetryMetrics" ∷ []

abbrev AgreeOn : List String → Fields → Fields → Type 0
AgreeOn names f g = (k : String) → elem k names ≡ true → find k f ≡ find k g

normalize-AgreeOn :
    (f g credentials : Fields)
    → AgreeOn postgres_names f g
    → normalize_postgres_config f credentials ≡ normalize_postgres_config g credentials
unfolding normalize_postgres_config queue_name_of tls_fields_of build_default_job_options elem
normalize-AgreeOn f g credentials h =
    rw
      (
        h "name" refl,
        h "port" refl,
        h "max" refl,
        h "removeOnComplete" refl,
        h "removeOnFail" refl,
        h "address" refl,
        h "database" refl,
        h "username" refl,
        h "schema" refl,
        h "migrate" refl,
        h "tls" refl,
        h "tlsRejectUnauthorized" refl,
        h "tlsServerName" refl,
        h "telemetry" refl,
        h "telemetryServiceName" refl,
        h "telemetryMetrics" refl,
      )
      refl

find-assign_other :
    (j k : String) (v : Value) (fs : Fields)
    → str_eq k j ≡ false
    → find j fs ≡ find j (assign k v fs)
unfolding find
find-assign_other j k v fs other = ground (arith, lookup-assign k j v fs)

elem_apart :
    (names : List String) (j k : String)
    → elem j names ≡ true
    → elem k names ≡ false
    → str_eq k j ≡ false
elem_apart names j k member other = ground (arith, str_eq_iff k j)

assign-AgreeOn :
    (names : List String) (k : String) (v : Value) (fs : Fields)
    → elem k names ≡ false
    → AgreeOn names fs (assign k v fs)
assign-AgreeOn names k v fs other j member =
    find-assign_other j k v fs (elem_apart names j k member other)

-- A field that is none of PostgreSQL's, such as one of Redis Cluster or Sentinel, changes nothing in the
-- configuration or the error that `normalizePostgresConfig` gives, whatever its value is.
pub normalize_postgres_config-assign :
    (k : String) (v : Value) (config credentials : Fields)
    → elem k postgres_names ≡ false
    → normalize_postgres_config (assign k v config) credentials
      ≡ normalize_postgres_config config credentials
normalize_postgres_config-assign k v config credentials other = sym (
    normalize-AgreeOn config (assign k v config) credentials
      (assign-AgreeOn postgres_names k v config other))
