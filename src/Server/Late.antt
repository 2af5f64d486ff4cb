-- ===== src/Server/Late.antt =====
-- src/transport/WebSocketServer.ts: a message whose `checkLimit` is answered after its socket has
-- closed. Every method of a closed socket of uWebSockets.js throws; what has been done before stays.
-- So the callback is given by what it does, one thing after another, and is run with or without
-- sockets that are closed.
use live_r.Base.{ℕ, Bool, true, false, List, [], ◌∷◌, ◌++◌, if◌then◌else◌, map}
use live_r.Base.Text.{Str, codes}
use live_r.Base.Equality.{str_eq, nat_eq, ◌==◌}
use live_r.Base.Sets
use live_r.Protocol.{
  ClientMessage, message, pong, subscribed, unsubscribed, create_error, rate_limit_exceeded,
  permission_denied, serialize,
}
use live_r.Protocol
use live_r.Types.{Ws, Effect, send, end, publish, add_member, remove_member, subscribe_channel}
use live_r.Types
use live_r.Metrics.{increment_messages_sent, increment_rate_limit_hits}
use live_r.PubSub.{room_channel, publish_to_room}
use live_r.Rooms
use live_r.Rooms.{remove_user_from_all_rooms}
use live_r.Server.{Options, Server, assign, count, reply}

-- A change of the state, or a call.
pub data Deed : Type 0 where
  changes : (Server → Server) → Deed
  calls : Effect → Deed

-- The methods of a socket.
abbrev pub uses_socket : Ws → Effect → Bool
uses_socket ws (send v payload) = v == ws
uses_socket ws (end v code text) = v == ws
uses_socket ws (Types.subscribe v topic) = v == ws
uses_socket ws (Types.unsubscribe v topic) = v == ws
uses_socket ws (publish v topic payload) = v == ws
uses_socket ws e = false

-- One thing after another, up to the first that throws: the state, the calls that were made, and
-- whether one has thrown.
unfoldable pub perform : (Effect → Bool) → List Deed → Server → (Server × List Effect) × Bool
perform throws [] s = ((s, []), false)
perform throws (changes f ∷ ds) s = perform throws ds (f s)
perform throws (calls e ∷ ds) s =
    let ((s', es), thrown) = perform throws ds s in
    if throws e then ((s, []), true) else ((s', e ∷ es), thrown)

abbrev pub set_rooms : Rooms.RoomManager → Server → Server
set_rooms rooms s = record s { rooms = rooms }

-- A call on a part that may not be given.
abbrev pub calls_given : Bool → Effect → List Deed
calls_given present e = if present then calls e ∷ [] else []

-- handleMessage, in its order.
unfoldable pub message_deeds : Options → ℕ → Ws → ClientMessage → Server → List Deed
message_deeds o now ws Protocol.ping s =
    changes (λ t. record t {
      user_data = assign ws (record (t.user_data ws) { last_pong = now }) t.user_data;
    })
    ∷ calls (reply ws pong)
    ∷ []
message_deeds o now ws (Protocol.subscribe room) s =
    let data' = s.user_data ws in
    let (rooms', subscribed') = Rooms.subscribe now data'.user_id room s.rooms in
    changes (set_rooms rooms')
    ∷ (if subscribed'
        then calls (Types.subscribe ws room)
          ∷ changes (λ t. record t {
            user_data = assign ws (record data' { rooms = Sets.add room data'.rooms }) t.user_data;
          })
          ∷ (calls_given o.pub_sub (subscribe_channel (room_channel room))
              ++ (calls_given o.room_sync (add_member room data'.user_id)
                  ++ (calls (reply ws (subscribed room))
                      ∷ changes (count o (increment_messages_sent 1))
                      ∷ [])))
        else calls
            (reply ws (create_error permission_denied (codes "Max room subscriptions reached")))
          ∷ [])
message_deeds o now ws (Protocol.unsubscribe room) s =
    let data' = s.user_data ws in
    calls (Types.unsubscribe ws room)
    ∷ changes (λ t. set_rooms (Rooms.unsubscribe data'.user_id room t.rooms).0 t)
    ∷ changes (λ t. record t {
      user_data = assign ws (record data' { rooms = Sets.remove room data'.rooms }) t.user_data;
    })
    ∷ (calls_given o.room_sync (remove_member room data'.user_id)
        ++ (calls (reply ws (unsubscribed room))
            ∷ changes (count o (increment_messages_sent 1))
            ∷ []))
message_deeds o now ws (Protocol.publish room event data') s =
    let payload = serialize (message room event data' now) in
    if Sets.has (codes "send") (s.user_data ws).permissions
    then calls (publish ws room payload)
      ∷ changes (count o (increment_messages_sent 1))
      ∷ (if o.pub_sub then map calls (publish_to_room room payload) else [])
    else calls (reply ws (create_error permission_denied (codes "No send permission"))) ∷ []

-- The callback of `checkLimit`.
unfoldable pub limit_deeds : Options → ℕ → Ws → ClientMessage → Bool → Server → List Deed
unfolding message_deeds
limit_deeds o now ws parsed true s = message_deeds o now ws parsed s
limit_deeds o now ws parsed false s =
    calls (reply ws (create_error rate_limit_exceeded (codes "Too many messages")))
    ∷ changes (count o increment_rate_limit_hits)
    ∷ []

-- On an open socket nothing throws, and on a closed one its methods do.
unfoldable pub late_answered :
    Options → ℕ → Ws → ClientMessage → Bool → Server → (Server × List Effect) × Bool
unfolding perform limit_deeds
late_answered o now ws parsed allowed s =
    perform (uses_socket ws) (limit_deeds o now ws parsed allowed s) s

abbrev pub nothing_throws : Effect → Bool
nothing_throws e = false

-- Whether a message subscribes to a room.
abbrev pub subscribes_to : Str → ClientMessage → Bool
subscribes_to room (Protocol.subscribe r) = r == room
subscribes_to room m = false
