-- ===== src/Start.antt =====
-- src/index.ts: what the program makes of its configuration, and what it does when it listens.
pub mod Ready
mod Examples
use live_r.Base.{ℕ, Bool, true, false, List, [], ◌∷◌, Option, none, some}
use live_r.Base.Text.{Str, codes}
use live_r.Base.Decimal.{ℤ, pos, negsuc}
use live_r.Types.{Heap}
use live_r.Connections
use live_r.Rooms
use live_r.Metrics
use live_r.Limiter.{RateLimiter}
use live_r.Server.{Server, Options}
use live_r.Config.{
  Config, ConfigKey, host, port, ws_max_connections, ws_max_rooms_per_connection, rate_limit_window,
  rate_limit_max_messages, rate_limit_max_requests, redis_url, redis_password, redis_db,
  redis_key_prefix, ws_heartbeat_interval, ws_heartbeat_timeout,
}
use live_r.Config.Schemas.{Value, number, string, boolean, absent}
use live_r.RedisClient.{RedisClientOptions, IoredisOptions, create_redis_client}
use live_r.Shutdown.{ShutdownDependencies, Shutdown, set_up, ShutdownEffect, exits}

-- A setting of a numeric or a string schema is such a value.
abbrev pub to_number : Value → ℕ
to_number (number (pos n)) = n
to_number v = 0

abbrev to_text : Value → Option Str
to_text (string s) = some s
to_text v = none

abbrev text_of : Option Str → Str
text_of none = []
text_of (some s) = s

-- Everything that is made before the program listens.
pub record Instance : Type 0 where
  pub server : Server
  pub options : Options
  pub redis_client : IoredisOptions
  pub redis_subscriber : IoredisOptions
  pub redis_publisher : IoredisOptions
  pub ws_rate_limiter : RateLimiter
  pub http_rate_limiter : RateLimiter
  -- startHeartbeat(connectionManager, interval, timeout)
  pub heartbeat_interval : ℕ
  pub heartbeat_timeout : ℕ

abbrev redis_options : Config → RedisClientOptions
redis_options config = record {
  url = text_of (to_text (config redis_url));
  password = to_text (config redis_password);
  db = to_number (config redis_db);
  key_prefix = text_of (to_text (config redis_key_prefix));
}

-- The subscriber and the publisher have no prefix.
abbrev bare_options : Config → RedisClientOptions
bare_options config = record (redis_options config) { key_prefix = [] }

-- The limiters share their prefix.
abbrev rate_limiter : Config → ConfigKey → RateLimiter
rate_limiter config most = record {
  window_ms = to_number (config rate_limit_window);
  max_requests = to_number (config most);
  key_prefix = codes "ratelimit";
}

unfoldable pub make_instance : Heap → ℕ → Config → Instance
make_instance h now config = record {
  server = record {
    user_data = h;
    connections = Connections.create (to_number (config ws_max_connections));
    rooms = Rooms.create (to_number (config ws_max_rooms_per_connection));
    metrics = Metrics.create now;
  };
  options = record {
    rate_limiter = true;
    metrics = true;
    pub_sub = true;
    presence = true;
    room_sync = true;
  };
  redis_client = create_redis_client (redis_options config);
  redis_subscriber = create_redis_client (bare_options config);
  redis_publisher = create_redis_client (bare_options config);
  ws_rate_limiter = rate_limiter config rate_limit_max_messages;
  http_rate_limiter = rate_limiter config rate_limit_max_requests;
  heartbeat_interval = to_number (config ws_heartbeat_interval);
  heartbeat_timeout = to_number (config ws_heartbeat_timeout);
}

-- The callback of `app.listen`, with the token or without: the shutdown is set up, its connections to
-- Redis being the three above, or the process exits.
unfoldable pub on_listen :
    Option ℕ → Instance → Option (ShutdownDependencies × Shutdown) × List ShutdownEffect
on_listen none i = (none, exits 1 ∷ [])
on_listen (some token) i = (
  some (
    record {
      listen_socket = some token;
      redis_pub_sub = true;
      redis_client = some 1;
      redis_subscriber = some 2;
      redis_publisher = some 3;
    },
    set_up i.server.connections,
  ),
  [],
)
