-- ===== src/Start/Examples.antt =====
-- Tests and instances for src/index.ts and what it makes: the connections to Redis, the verifier of
-- tokens, the logger and the ids.
use live_r.Base.{◌≡◌, ◌≢◌, ◌≤◌, refl, [], ◌∷◌, none, some, true, false, arith}
use live_r.Base.Text.{codes}
use live_r.Base.Equality.{str_beq}
use live_r.Types.{Heap}
use live_r.Protocol
use live_r.Server.{on_message}
use live_r.Connections.Invariant.{DistinctIds}
use live_r.Limiter.{key_of}
use live_r.Server.Reach.{Reachable}
use live_r.Http.Address.{limit_identifier}
use live_r.Config.{Config}
use live_r.Config.Plain.{plain_zod, plain_zod-IsZod}
use live_r.Config.Outcomes.{only_secrets, defaults, defaults_loaded}
use live_r.RedisClient.{retry_strategy, check_redis_health}
use live_r.Auth.{create}
use live_r.Logger.{first_logger, create_logger}
use live_r.Ids.{generate_connection_id, generate_instance_id}
use live_r.Start.{make_instance}
use live_r.Start.Ready.{ready_outcome, limiters_apart, awaited}

abbrev sockets : Heap
sockets w = record {
  user_id = codes "ann";
  connection_id = w ∷ [];
  rooms = [];
  permissions = [];
  connected_at = 0;
  last_pong = 0;
}

sockets_distinct : DistinctIds sockets
sockets_distinct v w e = ground arith

abbrev config : Config
config = defaults (codes "secret") (codes "key")

ready_outcome_example :
    let i = make_instance sockets 0 config in
    Reachable i.options i.server
    × (1 ≤ i.server.connections.max_connections)
    × (1 ≤ i.server.rooms.max_rooms_per_user)
    × (1 ≤ i.heartbeat_interval)
    × (1 ≤ i.heartbeat_timeout)
    × (1 ≤ i.ws_rate_limiter.window_ms)
    × (1 ≤ i.ws_rate_limiter.max_requests)
    × (1 ≤ i.http_rate_limiter.window_ms)
    × (1 ≤ i.http_rate_limiter.max_requests)
ready_outcome_example =
    ready_outcome plain_zod (only_secrets (codes "secret") (codes "key")) config sockets 0
      plain_zod-IsZod
      (defaults_loaded plain_zod plain_zod-IsZod (codes "secret") (codes "key") (omega arith)
        (omega arith))
      sockets_distinct

ann_waits :
    awaited (
      on_message
        (make_instance sockets 0 config).options
        0
        0
        (some (Protocol.subscribe (codes "news")))
        (make_instance sockets 0 config).server)
    ≡ some (codes "ws:ann")
unfolding make_instance on_message
ann_waits = refl

limiters_apart_example :
    let i = make_instance sockets 0 config in
    key_of i.ws_rate_limiter (codes "ws:ann")
    ≢ key_of i.http_rate_limiter (limit_identifier (codes "10.0.0.1, 10.0.0.2"))
limiters_apart_example =
    limiters_apart sockets 0 config 0 (some (Protocol.subscribe (codes "news")))
      (make_instance sockets 0 config).server (codes "ws:ann") (codes "10.0.0.1, 10.0.0.2")
      ann_waits

delays : (retry_strategy 1 ≡ 500) × (retry_strategy 11 ≡ 5000)
unfolding retry_strategy
delays = (refl, refl)

pongs : (check_redis_health (some (codes "PONG")) ≡ true) × (check_redis_health none ≡ false)
unfolding check_redis_health str_beq
pongs = (refl, refl)

-- A key file counts for RS256 alone.
keys :
    ((create
        (λ path. codes "file")
        (codes "secret")
        (some (codes "key.pem"))
        (codes "RS256")).secret
      ≡ codes "file")
    × ((create
          (λ path. codes "file")
          (codes "secret")
          (some (codes "key.pem"))
          (codes "HS256")).secret
        ≡ codes "secret")
unfolding create str_beq
keys = (refl, refl)

plain_output : (first_logger none none none).transport ≡ none
unfolding first_logger create_logger str_beq
plain_output = refl

named_ids : generate_instance_id (codes "a") ≢ generate_connection_id (codes "a")
unfolding generate_connection_id generate_instance_id
named_ids e = ground (arith, e)
