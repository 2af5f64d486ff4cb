-- ===== src/Config/Examples.antt =====
-- Tests and instances for src/config.
use live_r.Base.{◌≡◌, refl, [], ◌∷◌, arith}
use live_r.Base.Text.{codes}
use live_r.Config.{
  port, redis_db, ws_max_payload_size, ws_heartbeat_interval, ws_heartbeat_timeout,
  ws_max_connections, ws_max_rooms_per_connection, rate_limit_window, rate_limit_max_messages,
  rate_limit_max_requests, jwt_secret, api_key, Config, Environment, load_config, loaded, formatted,
}
use live_r.Config.Plain.{plain_zod, plain_zod-IsZod}
use live_r.Config.Loaded.{Between, IsPositive, IsGiven, load_config_bounds}
use live_r.Config.Outcomes.{only_secrets, defaults, defaults_loaded}

abbrev secrets : Environment
secrets = only_secrets (codes "secret") (codes "key")

abbrev config : Config
config = defaults (codes "secret") (codes "key")

defaults_loaded_example : load_config plain_zod secrets ≡ loaded config
defaults_loaded_example =
    defaults_loaded plain_zod plain_zod-IsZod (codes "secret") (codes "key") (omega arith)
      (omega arith)

load_config_bounds_example :
    Between 1 65535 (config port)
    × Between 0 15 (config redis_db)
    × IsPositive (config ws_max_payload_size)
    × IsPositive (config ws_heartbeat_interval)
    × IsPositive (config ws_heartbeat_timeout)
    × IsPositive (config ws_max_connections)
    × IsPositive (config ws_max_rooms_per_connection)
    × IsPositive (config rate_limit_window)
    × IsPositive (config rate_limit_max_messages)
    × IsPositive (config rate_limit_max_requests)
    × IsGiven (secrets (codes "JWT_SECRET")) (config jwt_secret)
    × IsGiven (secrets (codes "API_KEY")) (config api_key)
load_config_bounds_example =
    load_config_bounds plain_zod plain_zod-IsZod secrets config defaults_loaded_example

two_errors :
    formatted ((codes "port", codes "a" ∷ codes "b" ∷ []) ∷ (codes "apiKey", codes "c" ∷ []) ∷ [])
    ≡ codes "  port: a, b\n  apiKey: c"
unfolding formatted
two_errors = refl
