-- ===== src/Server.antt =====
-- src/transport/WebSocketServer.ts: the handlers of a WebSocket. Each takes the state of the
-- instance and returns the next with the calls made. Which of the optional parts there are is in
-- `Options`; `Date.now()` is an argument. The upgrade stands in Server.Upgrade.
pub mod Upgrade
pub mod Invariant
pub mod Keeps
pub mod Reach
pub mod Open
pub mod Messages
pub mod Close
pub mod Late
mod Examples
use live_r.Base.{
  ℕ, Bool, true, false, List, [], ◌∷◌, ◌++◌, Option, none, some, ltb, leb, if◌then◌else◌, map,
}
use live_r.Base.Text.{Str, codes}
use live_r.Base.Equality.{str_eq, nat_eq, ◌==◌}
use live_r.Base.Sets
use live_r.Protocol.{
  ClientMessage, ServerMessage, ErrorCode, welcome, subscribed, unsubscribed, message, pong,
  create_error, connection_limit, invalid_message, rate_limit_exceeded, permission_denied,
  serialize,
}
use live_r.Protocol
use live_r.Types.{
  UserData, Ws, Heap, Effect, send, end, publish, set_online, set_offline, add_member,
  remove_member, remove_from_all_rooms, subscribe_channel,
}
use live_r.Types
use live_r.Auth.{AuthResult}
use live_r.Connections.{ConnectionManager}
use live_r.Connections
use live_r.Rooms.{RoomManager}
use live_r.Rooms
use live_r.Metrics.{
  MetricsCollector, increment_connections_opened, increment_connections_closed, increment_errors,
  increment_messages_received, increment_messages_sent, increment_rate_limit_hits,
}
use live_r.PubSub.{user_channel, room_channel, publish_to_room}

-- Which of `rateLimiter?`, `metrics?`, `redisPubSub?`, `redisPresence?`, `redisRoomSync?` are given.
pub record Options : Type 0 where
  pub rate_limiter : Bool
  pub metrics : Bool
  pub pub_sub : Bool
  pub presence : Bool
  pub room_sync : Bool

pub record Server : Type 0 where
  pub user_data : Heap
  pub connections : ConnectionManager
  pub rooms : RoomManager
  pub metrics : MetricsCollector

abbrev pub reply : Ws → ServerMessage → Effect
reply ws m = send ws (serialize m)

-- `metrics?.increment…()`
abbrev pub count : Options → (MetricsCollector → MetricsCollector) → Server → Server
count o f s = record s { metrics = if o.metrics then f s.metrics else s.metrics }

abbrev pub given : Bool → List Effect → List Effect
given present effects = if present then effects else []

-- `data` is the object of the socket: an assignment to its fields is seen by every later call.
abbrev pub assign : Ws → UserData → Heap → Heap
assign ws data' h w = if ws == w then data' else h w

-- The rooms of the token: `ws.subscribe(room)`, and `roomManager.subscribe`, whose answer is dropped.
unfoldable pub join_rooms : ℕ → Ws → Str → List Str → RoomManager → RoomManager × List Effect
join_rooms now ws user_id [] m = (m, [])
join_rooms now ws user_id (room ∷ rest) m =
    let (m', effects) = join_rooms now ws user_id rest (Rooms.subscribe now user_id room m).0 in
    (m', Types.subscribe ws room ∷ effects)

-- What an accepted socket tells Redis.
unfoldable pub announce : Options → UserData → List Effect
announce o data' =
    given o.presence (set_online data'.user_id ∷ [])
    ++ (given o.pub_sub (
          subscribe_channel (user_channel data'.user_id)
          ∷ map (λ r. subscribe_channel (room_channel r)) data'.rooms)
        ++ given o.room_sync (map (λ r. add_member r data'.user_id) data'.rooms))

unfoldable pub on_close : Options → Ws → Server → Server × List Effect
on_close o ws s =
    let data' = s.user_data ws in
    (
      count o increment_connections_closed (record s {
        connections = Connections.remove s.user_data ws s.connections;
        rooms = (Rooms.remove_user_from_all_rooms data'.user_id s.rooms).0;
      }),
      given o.presence (set_offline data'.user_id ∷ [])
          ++ given o.room_sync (remove_from_all_rooms data'.user_id ∷ []),
    )

-- `ws.end` runs the `close` handler before it returns, and with it what `on_close` does to the refused
-- socket.
unfoldable pub on_open : Options → ℕ → Ws → Server → Server × List Effect
unfolding join_rooms announce on_close
on_open o now ws s =
    let data' = s.user_data ws in
    let (connections', added) = Connections.add s.user_data ws s.connections in
    let (rooms', joins) = join_rooms now ws data'.user_id data'.rooms s.rooms in
    let (refused, closing) = on_close o ws (record s { connections = connections' }) in
    if added
    then (
      count o increment_connections_opened
          (record s { connections = connections'; rooms = rooms' }),
      Types.subscribe ws (codes "user:" ++ data'.user_id)
          ∷ (joins
              ++ (Types.subscribe ws (codes "broadcast")
                  ∷ (announce o data'
                      ++ reply ws (welcome data'.connection_id data'.user_id) ∷ []))),
    )
    else (
      refused,
      reply ws (create_error connection_limit (codes "Connection limit reached"))
          ∷ end ws 1013 (codes "Connection limit reached")
          ∷ closing,
    )

unfoldable pub on_ping : ℕ → Ws → Server → Server × List Effect
on_ping now ws s = (
  record s { user_data = assign ws (record (s.user_data ws) { last_pong = now }) s.user_data },
  reply ws pong ∷ [],
)

unfoldable pub on_subscribe : Options → ℕ → Ws → Str → Server → Server × List Effect
on_subscribe o now ws room s =
    let data' = s.user_data ws in
    let (rooms', subscribed') = Rooms.subscribe now data'.user_id room s.rooms in
    if subscribed'
    then (
      count o (increment_messages_sent 1) (record s {
        rooms = rooms';
        user_data = assign ws (record data' { rooms = Sets.add room data'.rooms }) s.user_data;
      }),
      Types.subscribe ws room
          ∷ (given o.pub_sub (subscribe_channel (room_channel room) ∷ [])
              ++ (given o.room_sync (add_member room data'.user_id ∷ [])
                  ++ reply ws (subscribed room) ∷ [])),
    )
    else (
      record s { rooms = rooms' },
      reply ws (create_error permission_denied (codes "Max room subscriptions reached")) ∷ [],
    )

unfoldable pub on_unsubscribe : Options → Ws → Str → Server → Server × List Effect
on_unsubscribe o ws room s =
    let data' = s.user_data ws in
    (
      count o (increment_messages_sent 1) (record s {
        rooms = (Rooms.unsubscribe data'.user_id room s.rooms).0;
        user_data = assign ws (record data' { rooms = Sets.remove room data'.rooms }) s.user_data;
      }),
      Types.unsubscribe ws room
          ∷ (given o.room_sync (remove_member room data'.user_id ∷ [])
              ++ reply ws (unsubscribed room) ∷ []),
    )

-- `payload` is the text of the message that is passed on.
unfoldable pub on_publish : Options → Ws → Str → Str → Server → Server × List Effect
on_publish o ws room payload s =
    if Sets.has (codes "send") (s.user_data ws).permissions
    then (
      count o (increment_messages_sent 1) s,
      publish ws room payload ∷ given o.pub_sub (publish_to_room room payload),
    )
    else (s, reply ws (create_error permission_denied (codes "No send permission")) ∷ [])

unfoldable pub handle_message : Options → ℕ → Ws → ClientMessage → Server → Server × List Effect
unfolding on_ping on_subscribe on_unsubscribe on_publish
handle_message o now ws Protocol.ping s = on_ping now ws s
handle_message o now ws (Protocol.subscribe room) s = on_subscribe o now ws room s
handle_message o now ws (Protocol.unsubscribe room) s = on_unsubscribe o ws room s
handle_message o now ws (Protocol.publish room event data') s =
    on_publish o ws room (serialize (message room event data' now)) s

-- What the `message` handler has done when it returns: all, or it waits for `checkLimit` of the
-- identifier, with the message for later.
pub data Received : Type 0 where
  handled : Server → List Effect → Received
  awaits_limit : Server → Str → ClientMessage → Received

abbrev is_ping : ClientMessage → Bool
is_ping Protocol.ping = true
is_ping m = false

-- The message is given as parsed: `deserialize(raw)`.
unfoldable pub on_message : Options → ℕ → Ws → Option ClientMessage → Server → Received
unfolding handle_message
on_message o now ws none s =
    handled (count o increment_errors s)
      (reply ws (create_error invalid_message (codes "Invalid message format")) ∷ [])
on_message o now ws (some parsed) s =
    let counted = count o increment_messages_received s in
    let (s', effects) = handle_message o now ws parsed counted in
    if o.rate_limiter
    then (if is_ping parsed
        then handled s' effects
        else awaits_limit counted (codes "ws:" ++ (s.user_data ws).user_id) parsed)
    else handled s' effects

-- The continuation of `checkLimit`.
unfoldable pub limit_answered :
    Options → ℕ → Ws → ClientMessage → Bool → Server → Server × List Effect
unfolding handle_message
limit_answered o now ws parsed true s = handle_message o now ws parsed s
limit_answered o now ws parsed false s = (
  count o increment_rate_limit_hits s,
  reply ws (create_error rate_limit_exceeded (codes "Too many messages")) ∷ [],
)
