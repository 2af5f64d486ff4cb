-- ===== src/Config/Constants.antt =====
-- src/config/constants.ts: `DEFAULTS`.
use live_r.Base.{Bool, true, false}
use live_r.Base.Text.{Str, codes}
use live_r.Base.Decimal.{ℤ, pos}

abbrev pub default_port : ℤ
default_port = pos 3001

abbrev pub default_host : Str
default_host = codes "0.0.0.0"

abbrev pub default_instance_id : Str
default_instance_id = codes "instance-1"

abbrev pub default_ws_path : Str
default_ws_path = codes "/ws"

abbrev pub default_ws_max_payload_size : ℤ
default_ws_max_payload_size = pos 65536

abbrev pub default_ws_heartbeat_interval : ℤ
default_ws_heartbeat_interval = pos 30000

abbrev pub default_ws_heartbeat_timeout : ℤ
default_ws_heartbeat_timeout = pos 10000

abbrev pub default_ws_max_connections : ℤ
default_ws_max_connections = pos 10000

abbrev pub default_ws_max_rooms_per_connection : ℤ
default_ws_max_rooms_per_connection = pos 50

abbrev pub default_redis_url : Str
default_redis_url = codes "redis://localhost:6379"

abbrev pub default_redis_db : ℤ
default_redis_db = pos 0

abbrev pub default_redis_key_prefix : Str
default_redis_key_prefix = codes "liverelay:"

abbrev pub default_rate_limit_window : ℤ
default_rate_limit_window = pos 60000

abbrev pub default_rate_limit_max_messages : ℤ
default_rate_limit_max_messages = pos 100

abbrev pub default_rate_limit_max_requests : ℤ
default_rate_limit_max_requests = pos 60

abbrev pub default_log_level : Str
default_log_level = codes "info"

abbrev pub default_log_format : Str
default_log_format = codes "json"

abbrev pub default_metrics_enabled : Bool
default_metrics_enabled = true

abbrev pub default_metrics_path : Str
default_metrics_path = codes "/api/metrics"

abbrev pub default_cluster_enabled : Bool
default_cluster_enabled = false

abbrev pub default_cluster_workers : ℤ
default_cluster_workers = pos 0
