-- ===== src/RedisClient.antt =====
-- src/redis/RedisClient.ts: the options of the connections to Redis, the delay before they are made
-- again, and the health check; src/monitoring/healthCheck.ts. ioredis and nanoid are parameters.
use live_r.Base.{[], ◌∷◌, ℕ, ◌*◌, min, Bool, true, false, Option, none, some}
use live_r.Base.Text.{Str, codes}
use live_r.Base.Equality.{str_eq, ◌==◌}
use live_r.Connections.{ConnectionManager, get_stats}

pub record RedisClientOptions : Type 0 where
  pub url : Str
  pub password : Option Str
  pub db : ℕ
  pub key_prefix : Str

-- What `new Redis(url, …)` is given.
pub record IoredisOptions : Type 0 where
  pub url : Str
  pub password : Option Str
  pub db : ℕ
  pub key_prefix : Str
  pub max_retries_per_request : ℕ
  pub enable_ready_check : Bool
  pub lazy_connect : Bool

-- options.password || undefined
given_password : Option Str → Option Str
given_password none = none
given_password (some []) = none
given_password (some (c ∷ s)) = some (c ∷ s)

unfoldable pub create_redis_client : RedisClientOptions → IoredisOptions
unfolding given_password
create_redis_client options = record {
  url = options.url;
  password = given_password options.password;
  db = options.db;
  key_prefix = options.key_prefix;
  max_retries_per_request = 3;
  enable_ready_check = true;
  lazy_connect = false;
}

-- retryStrategy(times)
unfoldable pub retry_strategy : ℕ → ℕ
retry_strategy times = min (times * 500) 5000

-- What the ping has answered; nothing where it was rejected.
unfoldable pub check_redis_health : Option Str → Bool
check_redis_health none = false
check_redis_health (some result) = result == codes "PONG"

pub record HealthStatus : Type 0 where
  pub status : Str
  pub uptime : ℕ
  pub connections : ℕ
  pub redis : Str
  pub version : Str
  pub instance_id : Str

-- getHealthStatus, at an uptime in seconds.
unfoldable pub get_health_status : ℕ → ConnectionManager → Str → HealthStatus
get_health_status uptime m instance_id = record {
  status = codes "healthy";
  uptime = uptime;
  connections = (get_stats m).total;
  redis = codes "not_configured";
  version = codes "1.0.0";
  instance_id = instance_id;
}
