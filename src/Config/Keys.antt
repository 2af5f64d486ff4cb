-- ===== src/Config/Keys.antt =====
-- src/config/index.ts: all the keys of a configuration, and tests of all elements of a list.
use live_r.Base.{◌≡◌, refl, Bool, true, ◌&&◌, List, [], ◌∷◌, arith, All}
use live_r.Base.Equality.{str_eq}
use live_r.Config.{
  ConfigKey, port, host, node_env, instance_id, ws_path, ws_max_payload_size, ws_heartbeat_interval,
  ws_heartbeat_timeout, ws_max_connections, ws_max_rooms_per_connection, jwt_secret, jwt_public_key,
  jwt_algorithm, api_key, redis_url, redis_password, redis_db, redis_key_prefix, rate_limit_window,
  rate_limit_max_messages, rate_limit_max_requests, log_level, log_format, metrics_enabled,
  metrics_path, cluster_enabled, cluster_workers,
}

unfoldable pub every {ℓ} : {A : Type ℓ} → (A → Bool) → List A → Bool
every f [] = true
every f (x ∷ xs) = f x && every f xs

abbrev pub keys : List ConfigKey
keys =
    port ∷ host ∷ node_env ∷ instance_id ∷ ws_path ∷ ws_max_payload_size ∷ ws_heartbeat_interval
    ∷ ws_heartbeat_timeout ∷ ws_max_connections ∷ ws_max_rooms_per_connection ∷ jwt_secret
    ∷ jwt_public_key ∷ jwt_algorithm ∷ api_key ∷ redis_url ∷ redis_password ∷ redis_db
    ∷ redis_key_prefix ∷ rate_limit_window ∷ rate_limit_max_messages ∷ rate_limit_max_requests
    ∷ log_level ∷ log_format ∷ metrics_enabled ∷ metrics_path ∷ cluster_enabled ∷ cluster_workers
    ∷ []

pub every-All {ℓ κ} :
    {A : Type ℓ} {f : A → Bool} {P : A → Type κ}
    → ((x : A) → (f x ≡ true → P x) × (P x → f x ≡ true))
    → (xs : List A) → (every f xs ≡ true → All P xs) × (All P xs → every f xs ≡ true)
unfolding every
every-All same [] = (λ h. tt, λ h. refl)
every-All {f = f} same (x ∷ xs) =
    let rest = every-All same xs in
    (
      λ h. ((same x).0 (ground (arith, h)), rest.0 (ground (arith, h))),
      λ h. ground (arith, (same x).1 h.0, rest.1 h.1),
    )

pub is_key : (k : ConfigKey) (f : ConfigKey → Bool) → every f keys ≡ true → f k ≡ true
unfolding every
is_key k f h = at_key k
  where
    all : All (λ j. f j ≡ true) keys
    all = (every-All {f = f} {P = λ j. f j ≡ true} (λ j. (λ e. e, λ e. e)) keys).0 h

    at_key : (j : ConfigKey) → f j ≡ true
    at_key port = all.0
    at_key host = all.1.0
    at_key node_env = all.1.1.0
    at_key instance_id = all.1.1.1.0
    at_key ws_path = all.1.1.1.1.0
    at_key ws_max_payload_size = all.1.1.1.1.1.0
    at_key ws_heartbeat_interval = all.1.1.1.1.1.1.0
    at_key ws_heartbeat_timeout = all.1.1.1.1.1.1.1.0
    at_key ws_max_connections = all.1.1.1.1.1.1.1.1.0
    at_key ws_max_rooms_per_connection = all.1.1.1.1.1.1.1.1.1.0
    at_key jwt_secret = all.1.1.1.1.1.1.1.1.1.1.0
    at_key jwt_public_key = all.1.1.1.1.1.1.1.1.1.1.1.0
    at_key jwt_algorithm = all.1.1.1.1.1.1.1.1.1.1.1.1.0
    at_key api_key = all.1.1.1.1.1.1.1.1.1.1.1.1.1.0
    at_key redis_url = all.1.1.1.1.1.1.1.1.1.1.1.1.1.1.0
    at_key redis_password = all.1.1.1.1.1.1.1.1.1.1.1.1.1.1.1.0
    at_key redis_db = all.1.1.1.1.1.1.1.1.1.1.1.1.1.1.1.1.0
    at_key redis_key_prefix = all.1.1.1.1.1.1.1.1.1.1.1.1.1.1.1.1.1.0
    at_key rate_limit_window = all.1.1.1.1.1.1.1.1.1.1.1.1.1.1.1.1.1.1.0
    at_key rate_limit_max_messages = all.1.1.1.1.1.1.1.1.1.1.1.1.1.1.1.1.1.1.1.0
    at_key rate_limit_max_requests = all.1.1.1.1.1.1.1.1.1.1.1.1.1.1.1.1.1.1.1.1.0
    at_key log_level = all.1.1.1.1.1.1.1.1.1.1.1.1.1.1.1.1.1.1.1.1.1.0
    at_key log_format = all.1.1.1.1.1.1.1.1.1.1.1.1.1.1.1.1.1.1.1.1.1.1.0
    at_key metrics_enabled = all.1.1.1.1.1.1.1.1.1.1.1.1.1.1.1.1.1.1.1.1.1.1.1.0
    at_key metrics_path = all.1.1.1.1.1.1.1.1.1.1.1.1.1.1.1.1.1.1.1.1.1.1.1.1.0
    at_key cluster_enabled = all.1.1.1.1.1.1.1.1.1.1.1.1.1.1.1.1.1.1.1.1.1.1.1.1.1.0
    at_key cluster_workers = all.1.1.1.1.1.1.1.1.1.1.1.1.1.1.1.1.1.1.1.1.1.1.1.1.1.1.0

pub every_fine :
    (f : ConfigKey → Bool) (ks : List ConfigKey)
    → ((k : ConfigKey) → f k ≡ true)
    → every f ks ≡ true
unfolding every
every_fine f [] all = refl
every_fine f (k ∷ ks) all = ground (arith, all k, every_fine f ks all)
