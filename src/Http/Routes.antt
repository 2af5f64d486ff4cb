-- ===== src/Http/Routes.antt =====
-- src/transport/HttpServer.ts: the routes, with the payloads of src/transport/validation.ts. The
-- date of a room is printed by the parameter `iso`, JavaScript's `toISOString`.
use live_r.Base.{ℕ, Bool, List, [], ◌∷◌, Option, none, some, length, if◌then◌else◌}
use live_r.Base.Text.{Str, codes}
use live_r.Base.Equality.{str_eq, ◌==◌}
use live_r.Base.Decimal.{decimal}
use live_r.Protocol.Values.{Json, text, num, arr, obj, Items, nil, cons, end, field}
use live_r.Limiter.{RateLimitResult}
use live_r.Connections.{ConnectionManager, get_stats, size}
use live_r.Rooms.{RoomInfo, RoomManager, get_all_rooms, room_count}
use live_r.Metrics.{MetricsCollector, to_prometheus}
use live_r.Router.{Router, send_to_target, send_to_room, broadcast}
use live_r.Http.{Response, Body, Parsed, Posted, send_json, require_api_key, post, error_json}

pub record SendMessagePayload : Type 0 where
  pub target : Str
  pub event : Str
  pub data' : Option Json

-- Also the payload of `roomSendMessageSchema`.
pub record BroadcastMessagePayload : Type 0 where
  pub event : Str
  pub data' : Option Json

-- POST /api/send
unfoldable pub post_send :
    (Str → Option Json)
    → (Json → Parsed SendMessagePayload)
    → Router
    → Str
    → Str
    → Option RateLimitResult
    → Bool
    → Body
    → MetricsCollector
    → Posted
post_send parse_json schema c =
    post parse_json schema (λ p. send_to_target c p.target p.event p.data')

-- POST /api/broadcast
unfoldable pub post_broadcast :
    (Str → Option Json)
    → (Json → Parsed BroadcastMessagePayload)
    → Router
    → Str
    → Str
    → Option RateLimitResult
    → Bool
    → Body
    → MetricsCollector
    → Posted
post_broadcast parse_json schema c = post parse_json schema (λ p. broadcast c p.event p.data')

-- POST /api/rooms/:roomId/send: the room's name is tested behind the key.
unfoldable pub post_room :
    (Str → Option Json)
    → (Json → Parsed BroadcastMessagePayload)
    → Router
    → Str
    → Str
    → Str
    → Option RateLimitResult
    → Bool
    → Body
    → MetricsCollector
    → Posted
post_room parse_json schema c [] api_key header limit gone body m = record {
  metrics = m;
  effects = [];
  response = elim (require_api_key api_key header) [
    | some refused ↦ some refused
    | none ↦
        some (send_json (codes "400 Bad Request") (error_json (codes "Missing roomId parameter")))
  ];
}
post_room parse_json schema c (d ∷ room_id) api_key header limit gone body m =
    post parse_json schema (λ p. send_to_room c (d ∷ room_id) p.event p.data') api_key header limit
      gone body m

unfoldable pub rooms_json : (ℕ → Str) → List RoomInfo → Items
rooms_json iso [] = nil
rooms_json iso (room ∷ rest) =
    cons
      (obj (
        field (codes "id") (text room.id) (
          field (codes "members") (num (decimal (length room.members)))
            (field (codes "created") (text (iso room.created_at)) end))))
      (rooms_json iso rest)

-- The answer to a request that needs the key.
abbrev behind_key : Str → Str → Response → Response
behind_key api_key header answer = elim (require_api_key api_key header) [
  | some refused ↦ refused
  | none ↦ answer
]

-- GET /api/rooms
unfoldable pub get_rooms : (ℕ → Str) → Str → Str → RoomManager → Response
unfolding rooms_json
get_rooms iso api_key header rooms = behind_key api_key header (
    send_json (codes "200 OK") (
      obj (
        field (codes "rooms") (arr (rooms_json iso (get_all_rooms rooms)))
          (field (codes "total") (num (decimal (length (get_all_rooms rooms)))) end))))

-- GET /api/connections
unfoldable pub get_connections : Str → Str → ConnectionManager → Response
get_connections api_key header connections =
    let stats = get_stats connections in
    behind_key api_key header (
      send_json (codes "200 OK") (
        obj (
          field (codes "total") (num (decimal stats.total))
            (field (codes "uniqueUsers") (num (decimal stats.unique_users)) end))))

-- What `checkRedisHealth` comes to, if there is a client.
pub data RedisStatus : Type 0 where
  connected disconnected error not_configured : RedisStatus

abbrev pub status_text : RedisStatus → Str
status_text connected = codes "connected"
status_text disconnected = codes "disconnected"
status_text error = codes "error"
status_text not_configured = codes "not_configured"

-- GET /api/health; the uptime is in whole seconds.
unfoldable pub get_health :
    Bool → ℕ → Str → RedisStatus → ConnectionManager → RoomManager → Option Response
get_health gone uptime instance_id redis connections rooms =
    if gone
    then none
    else some (
        send_json (codes "200 OK") (
          obj (
            field (codes "status")
              (text (
                if status_text redis == codes "connected"
                then codes "healthy"
                else codes "degraded"))
              (field (codes "uptime") (num (decimal uptime)) (
                field (codes "connections") (num (decimal (get_stats connections).total)) (
                  field (codes "rooms") (num (decimal (room_count rooms))) (
                    field (codes "redis") (text (status_text redis)) (
                      field (codes "version") (text (codes "1.0.0"))
                        (field (codes "instanceId") (text instance_id) end)))))))))

-- The metrics endpoint.
unfoldable pub get_metrics : ℕ → ConnectionManager → RoomManager → MetricsCollector → Response
get_metrics now connections rooms m = record {
  status = codes "200 OK";
  headers =
      (codes "Content-Type", codes "text/plain; version=0.0.4; charset=utf-8")
      ∷ (codes "Access-Control-Allow-Origin", codes "*")
      ∷ [];
  body = to_prometheus now (size connections) (room_count rooms) m;
}

-- CORS preflight
unfoldable pub options : Response
options = record {
  status = codes "204 No Content";
  headers =
      (codes "Access-Control-Allow-Origin", codes "*")
      ∷ (codes "Access-Control-Allow-Methods", codes "GET, POST, OPTIONS")
      ∷ (codes "Access-Control-Allow-Headers", codes "Content-Type, Authorization")
      ∷ (codes "Access-Control-Max-Age", codes "86400")
      ∷ [];
  body = [];
}

-- Catch-all 404
unfoldable pub not_found : Response
not_found = send_json (codes "404 Not Found") (error_json (codes "Not found"))
