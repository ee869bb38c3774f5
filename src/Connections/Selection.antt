-- ===== src/Connections/Selection.antt =====
-- `normalizeQueueConfig` of lib/connections.js: which backend is chosen, and which fields are refused.
use node_red_contrib_bull.Prelude.{
  String, ◌≡◌, refl, Bool, true, false, not, ◌&&◌, ◌||◌, List, [], ◌∷◌, ◌++◌, ◌≢◌, none, some,
  arith, Bool-cases, sym, str_eq_refl, str_eq, str_eq_iff, if◌then◌else◌, inl, inr, ◌<>◌, ◌⊎◌,
  Option-cases,
}
use node_red_contrib_bull.Js.Text.{trim, to_lower, elem}
use node_red_contrib_bull.Js.Value.{Value, Fields, ok, err, throw, is_present, to_string}
use node_red_contrib_bull.Js.Results.{
  Returns, returned, thrown, Returns-at, Returns-if, Returns-test, Returns->>=,
}
use node_red_contrib_bull.Js.Objects.{find}
use node_red_contrib_bull.Connections.Coercions.{normalize_backend}
use node_red_contrib_bull.Connections.Endpoints.{NodeParsers}
use node_red_contrib_bull.Connections.Config.{
  QueueConfig, first_present, removed_aliases, secret_names, refuse_alias, refuse_secret,
  normalize_postgres_config, normalize_redis_config, normalize_queue_config,
}
use node_red_contrib_bull.Connections.Options.{is_postgres}

-- The configuration asks for PostgreSQL, whatever its case and the spaces around it.
abbrev pub asks_postgres : Fields → Bool
asks_postgres config =
    is_present (find "backend" config)
    && str_eq (to_lower (trim (to_string (find "backend" config)))) "postgres"

-- The backend that is chosen, over the tests that the code makes of its name in lower case.
backend_name :
    (present : Bool) (name : String) (e : Value)
    → Returns
        (λ b. str_eq b "postgres" ≡ present && str_eq name "postgres")
        (if not present
          then ok "redis"
          else if elem name ("redis" ∷ "postgres" ∷ [])
          then ok name
          else err e)
backend_name false name e = returned refl
backend_name true name e = Returns-if (elem name ("redis" ∷ "postgres" ∷ [])) (returned refl) thrown

backend_asked :
    (config : Fields) (backend : String)
    → normalize_backend config ≡ ok backend
    → str_eq backend "postgres" ≡ asks_postgres config
unfolding normalize_backend
backend_asked config backend h = Returns-at backend (backend_name _ _ _) h

first_missing :
    (name : String) (names : List String) (config : Fields)
    → elem name names ≡ true
    → first_present names config ≡ none
    → is_present (find name config) ≡ false
unfolding first_present elem
first_missing name [] config member missing = ground arith
first_missing name (n ∷ names) config member missing =
    ground (arith, str_eq_iff name n, first_missing name names config)

first_found :
    (other : String) (names : List String) (config : Fields)
    → first_present names config ≡ some other
    → (elem other names ≡ true) × (is_present (find other config) ≡ true)
unfolding first_present elem
first_found other [] config h = ground arith
first_found other (n ∷ names) config h = elim (Bool-cases (is_present (find n config))) [
  | inl here ↦ let same : n ≡ other = ground arith in rw (sym same) (rw (str_eq_refl n) refl, here)
  | inr missing ↦
      let (listed, there) = first_found other names config (ground arith) in
      (ground (arith, listed), there)
]

elem-append : (s : String) (xs ys : List String) → elem s (xs ++ ys) ≡ elem s xs || elem s ys
unfolding elem
elem-append s [] ys = refl
elem-append s (x ∷ xs) ys = ground (arith, elem-append s xs ys)

-- The lists of names are variables here, so that they are not opened.
one_present :
    (name : String) (xs ys : List String) (config : Fields)
    → elem name (xs ++ ys) ≡ true
    → is_present (find name config) ≡ true
    → first_present xs config ≡ none
    → first_present ys config ≢ none
one_present name xs ys config member present no_x no_y =
    ground
      (arith, elem-append name xs ys, first_missing name xs config, first_missing name ys config)

module _ (node : NodeParsers) where
  backend-Returns :
      (config credentials : Fields)
      → Returns
          (λ c. is_postgres c ≡ asks_postgres config)
          (normalize_queue_config node config credentials)
  unfolding normalize_queue_config
  backend-Returns config credentials =
      Returns->>= (refuse_alias (first_present removed_aliases config)) (λ _ _.
        Returns->>= (refuse_secret (first_present secret_names config)) (λ _ _.
          Returns->>= (normalize_backend config) (λ backend h.
            Returns-test (str_eq backend "postgres")
              (λ b.
                Returns->>= (normalize_postgres_config config credentials)
                  (λ c _. returned (ground (arith, backend_asked config backend h))))
              (λ b.
                Returns->>= (normalize_redis_config node config credentials)
                  (λ c _. returned (ground (arith, backend_asked config backend h)))))))

  -- A configuration that is accepted is one for PostgreSQL exactly when its `backend` is present and says
  -- "postgres", in any case and with any spaces around it; without a `backend` it is one for Redis.
  pub normalize_queue_config-backend :
      (config credentials : Fields) (c : QueueConfig)
      → normalize_queue_config node config credentials ≡ ok c
      → is_postgres c ≡ asks_postgres config
  normalize_queue_config-backend config credentials c h =
      Returns-at c (backend-Returns config credentials) h

  -- A secret or a removed alias that is present among the fields of a configuration refuses it, for
  -- either backend and whatever the credentials are. The message names a field that is present, and says that
  -- it must be stored in the credentials if it is one of the secrets, or else that it is not supported, where it
  -- is one of the removed aliases; one of the latter that is present is named before any secret.
  pub normalize_queue_config_refuses :
      (config credentials : Fields) (name : String)
      → elem name (secret_names ++ removed_aliases) ≡ true
      → is_present (find name config) ≡ true
      → (other : String) × (is_present (find other config) ≡ true)
        × (((elem other removed_aliases ≡ true)
              × (normalize_queue_config node config credentials
                  ≡ throw ("Unsupported config field: " <> other)))
            ⊎ ((elem other secret_names ≡ true)
                × (first_present removed_aliases config ≡ none)
                × (normalize_queue_config node config credentials
                    ≡ throw (other <> " must be stored in Node-RED credentials"))))
  unfolding normalize_queue_config
  normalize_queue_config_refuses config credentials name member present =
      elim (Option-cases (first_present removed_aliases config)) [
        | inr (other, alias) ↦
            let (listed, there) = first_found other removed_aliases config alias in
            (other, there, inl (listed, rw alias refl))
        | inl no_alias ↦ elim (Option-cases (first_present secret_names config)) [
          | inr (other, secret) ↦
              let (listed, there) = first_found other secret_names config secret in
              (other, there, inr (listed, no_alias, rw (no_alias, secret) refl))
          | inl no_secret ↦ absurd (
              one_present name secret_names removed_aliases config member present no_secret
                no_alias)
        ]
      ]
