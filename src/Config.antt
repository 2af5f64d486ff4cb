-- ===== src/Config.antt =====
-- src/config: the settings, their schema and how they are read from the environment. zod is a
-- parameter, with its documented behaviour in Config.Schemas; the configuration is its value at each key.
pub mod Constants
pub mod Schemas
pub mod Keys
pub mod Plain
pub mod Loaded
pub mod Outcomes
mod Examples
use live_r.Base.{ℕ, Bool, true, false, List, [], ◌∷◌, ◌++◌, Option, none, some, map, String}
use live_r.Base.Text.{Str, codes}
use live_r.Base.Equality.{str_eq, ◌==◌}
use live_r.Base.Decimal.{ℤ, pos}
use Constants.{
  default_port, default_host, default_instance_id, default_ws_path, default_ws_max_payload_size,
  default_ws_heartbeat_interval, default_ws_heartbeat_timeout, default_ws_max_connections,
  default_ws_max_rooms_per_connection, default_redis_url, default_redis_db,
  default_redis_key_prefix, default_rate_limit_window, default_rate_limit_max_messages,
  default_rate_limit_max_requests, default_log_level, default_log_format, default_metrics_enabled,
  default_metrics_path, default_cluster_enabled, default_cluster_workers,
}
use Schemas.{
  Value, number, string, boolean, absent, Schema, number_schema, string_schema, optional_string,
  enum_schema, preprocessed, NumberCheck, min, max, positive, StringCheck, starts_with, min_length,
  url, Parsed, success, failure, Zod,
}

pub data ConfigKey : Type 0 where
  port host node_env instance_id : ConfigKey
  ws_path ws_max_payload_size ws_heartbeat_interval ws_heartbeat_timeout : ConfigKey
  ws_max_connections ws_max_rooms_per_connection : ConfigKey
  jwt_secret jwt_public_key jwt_algorithm api_key : ConfigKey
  redis_url redis_password redis_db redis_key_prefix : ConfigKey
  rate_limit_window rate_limit_max_messages rate_limit_max_requests : ConfigKey
  log_level log_format metrics_enabled metrics_path cluster_enabled cluster_workers : ConfigKey

abbrev pub Config : Type 0
Config = ConfigKey → Value

texts : List String → List Str
texts names = map codes names

-- val === 'true'; no variable of the environment is `true` itself.
is_true : Str → Bool
is_true val = val == codes "true"

-- z.coerce.number().int().positive().default(n)
positive_number : ℤ → Schema
positive_number n = number_schema (positive ∷ []) n

-- configSchema
unfoldable pub config_schema : ConfigKey → Schema
unfolding positive_number texts is_true
config_schema port = number_schema (min 1 ∷ max 65535 ∷ []) default_port
config_schema host = string_schema [] (some default_host)
config_schema node_env =
    enum_schema (texts ("development" ∷ "production" ∷ "test" ∷ [])) (codes "development")
config_schema instance_id = string_schema (min_length 1 ∷ []) (some default_instance_id)
config_schema ws_path = string_schema (starts_with (codes "/") ∷ []) (some default_ws_path)
config_schema ws_max_payload_size = positive_number default_ws_max_payload_size
config_schema ws_heartbeat_interval = positive_number default_ws_heartbeat_interval
config_schema ws_heartbeat_timeout = positive_number default_ws_heartbeat_timeout
config_schema ws_max_connections = positive_number default_ws_max_connections
config_schema ws_max_rooms_per_connection = positive_number default_ws_max_rooms_per_connection
config_schema jwt_secret = string_schema (min_length 1 ∷ []) none
config_schema jwt_public_key = optional_string
config_schema jwt_algorithm = enum_schema (texts ("HS256" ∷ "RS256" ∷ [])) (codes "HS256")
config_schema api_key = string_schema (min_length 1 ∷ []) none
config_schema redis_url = string_schema (url ∷ []) (some default_redis_url)
config_schema redis_password = optional_string
config_schema redis_db = number_schema (min 0 ∷ max 15 ∷ []) default_redis_db
config_schema redis_key_prefix = string_schema [] (some default_redis_key_prefix)
config_schema rate_limit_window = positive_number default_rate_limit_window
config_schema rate_limit_max_messages = positive_number default_rate_limit_max_messages
config_schema rate_limit_max_requests = positive_number default_rate_limit_max_requests
config_schema log_level =
    enum_schema (texts ("debug" ∷ "info" ∷ "warn" ∷ "error" ∷ "fatal" ∷ [])) default_log_level
config_schema log_format = enum_schema (texts ("json" ∷ "pretty" ∷ [])) default_log_format
config_schema metrics_enabled = preprocessed is_true default_metrics_enabled
config_schema metrics_path =
    string_schema (starts_with (codes "/") ∷ []) (some default_metrics_path)
config_schema cluster_enabled = preprocessed is_true default_cluster_enabled
config_schema cluster_workers = number_schema (min 0 ∷ []) default_cluster_workers

-- process.env
abbrev pub Environment : Type 0
Environment = Str → Option Str

-- value || undefined
unfoldable pub or_undefined : Option Str → Option Str
or_undefined none = none
or_undefined (some []) = none
or_undefined (some (c ∷ s)) = some (c ∷ s)

-- The object `raw` of loadConfig.
unfoldable pub raw : Environment → ConfigKey → Option Str
unfolding or_undefined
raw env port = env (codes "PORT")
raw env host = env (codes "HOST")
raw env node_env = env (codes "NODE_ENV")
raw env instance_id = env (codes "INSTANCE_ID")
raw env ws_path = env (codes "WS_PATH")
raw env ws_max_payload_size = env (codes "WS_MAX_PAYLOAD_SIZE")
raw env ws_heartbeat_interval = env (codes "WS_HEARTBEAT_INTERVAL")
raw env ws_heartbeat_timeout = env (codes "WS_HEARTBEAT_TIMEOUT")
raw env ws_max_connections = env (codes "WS_MAX_CONNECTIONS")
raw env ws_max_rooms_per_connection = env (codes "WS_MAX_ROOMS_PER_CONNECTION")
raw env jwt_secret = env (codes "JWT_SECRET")
raw env jwt_public_key = or_undefined (env (codes "JWT_PUBLIC_KEY"))
raw env jwt_algorithm = env (codes "JWT_ALGORITHM")
raw env api_key = env (codes "API_KEY")
raw env redis_url = env (codes "REDIS_URL")
raw env redis_password = or_undefined (env (codes "REDIS_PASSWORD"))
raw env redis_db = env (codes "REDIS_DB")
raw env redis_key_prefix = env (codes "REDIS_KEY_PREFIX")
raw env rate_limit_window = env (codes "RATE_LIMIT_WINDOW")
raw env rate_limit_max_messages = env (codes "RATE_LIMIT_MAX_MESSAGES")
raw env rate_limit_max_requests = env (codes "RATE_LIMIT_MAX_REQUESTS")
raw env log_level = env (codes "LOG_LEVEL")
raw env log_format = env (codes "LOG_FORMAT")
raw env metrics_enabled = env (codes "METRICS_ENABLED")
raw env metrics_path = env (codes "METRICS_PATH")
raw env cluster_enabled = env (codes "CLUSTER_ENABLED")
raw env cluster_workers = env (codes "CLUSTER_WORKERS")

-- A configuration, or the error that is thrown with its text.
pub data Loading : Type 0 where
  loaded : Config → Loading
  throws : Str → Loading

-- xs.join(separator)
join : Str → List Str → Str
join separator [] = []
join separator (x ∷ []) = x
join separator (x ∷ y ∷ xs) = x ++ (separator ++ join separator (y ∷ xs))

unfoldable pub formatted : List (Str × List Str) → Str
unfolding join
formatted errors = join (codes "\n") (
    map (λ (e : Str × List Str). codes "  " ++ (e.0 ++ (codes ": " ++ join (codes ", ") e.1)))
      errors)

unfoldable pub load_config : Zod ConfigKey → Environment → Loading
unfolding formatted
load_config zod env = elim (zod.safe_parse config_schema (raw env)) [
  | success config ↦ loaded config
  | failure errors ↦ throws (codes "Invalid configuration:\n" ++ formatted errors)
]
