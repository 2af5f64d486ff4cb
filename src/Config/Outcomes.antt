-- ===== src/Config/Outcomes.antt =====
-- src/config: which environments are loaded, and to what.
use live_r.Base.{◌≤◌, ◌≡◌, refl, true, false, none, some, length, if◌then◌else◌}
use live_r.Base.Text.{Str, codes}
use live_r.Base.Equality.{str_eq, str_beq, ◌==◌}
use live_r.Base.Decimal.{pos}
use live_r.Config.{
  ConfigKey, port, host, node_env, instance_id, ws_path, ws_max_payload_size, ws_heartbeat_interval,
  ws_heartbeat_timeout, ws_max_connections, ws_max_rooms_per_connection, jwt_secret, jwt_public_key,
  jwt_algorithm, api_key, redis_url, redis_password, redis_db, redis_key_prefix, rate_limit_window,
  rate_limit_max_messages, rate_limit_max_requests, log_level, log_format, metrics_enabled,
  metrics_path, cluster_enabled, cluster_workers, Config, config_schema, Environment, raw,
  or_undefined, loaded, load_config, positive_number,
}
use live_r.Config.Schemas.{Zod, IsZod, Fits, number, string, boolean, absent}

-- An environment in which nothing but the secrets is set.
abbrev pub only_secrets : Str → Str → Environment
only_secrets secret key name =
    if name == codes "JWT_SECRET"
    then some secret
    else if name == codes "API_KEY"
    then some key
    else none

-- The configuration that it gives.
abbrev pub defaults : Str → Str → Config
defaults secret key port = number (pos 3001)
defaults secret key host = string (codes "0.0.0.0")
defaults secret key node_env = string (codes "development")
defaults secret key instance_id = string (codes "instance-1")
defaults secret key ws_path = string (codes "/ws")
defaults secret key ws_max_payload_size = number (pos 65536)
defaults secret key ws_heartbeat_interval = number (pos 30000)
defaults secret key ws_heartbeat_timeout = number (pos 10000)
defaults secret key ws_max_connections = number (pos 10000)
defaults secret key ws_max_rooms_per_connection = number (pos 50)
defaults secret key jwt_secret = string secret
defaults secret key jwt_public_key = absent
defaults secret key jwt_algorithm = string (codes "HS256")
defaults secret key api_key = string key
defaults secret key redis_url = string (codes "redis://localhost:6379")
defaults secret key redis_password = absent
defaults secret key redis_db = number (pos 0)
defaults secret key redis_key_prefix = string (codes "liverelay:")
defaults secret key rate_limit_window = number (pos 60000)
defaults secret key rate_limit_max_messages = number (pos 100)
defaults secret key rate_limit_max_requests = number (pos 60)
defaults secret key log_level = string (codes "info")
defaults secret key log_format = string (codes "json")
defaults secret key metrics_enabled = boolean true
defaults secret key metrics_path = string (codes "/api/metrics")
defaults secret key cluster_enabled = boolean false
defaults secret key cluster_workers = number (pos 0)

module _ (zod : Zod ConfigKey) (is_zod : IsZod zod) where
  defaults-Fits :
      (secret key : Str)
      → 1 ≤ length secret
      → 1 ≤ length key
      → (k : ConfigKey)
      → Fits zod (config_schema k) (raw (only_secrets secret key) k) (defaults secret key k)
  unfolding config_schema positive_number raw or_undefined str_beq
  defaults-Fits secret key s a jwt_secret = (refl, (s, tt))
  defaults-Fits secret key s a api_key = (refl, (a, tt))
  defaults-Fits secret key s a k = refl

  -- With nothing set but the secret of the tokens and the key of the API, neither empty, every other
  -- setting has its default.
  pub defaults_loaded :
      (secret key : Str)
      → 1 ≤ length secret
      → 1 ≤ length key
      → load_config zod (only_secrets secret key) ≡ loaded (defaults secret key)
  unfolding load_config
  defaults_loaded secret key s a =
      rw
        (
          load_config,
          is_zod.accepts config_schema (raw (only_secrets secret key)) (defaults secret key)
              (defaults-Fits secret key s a),
        )
        refl
