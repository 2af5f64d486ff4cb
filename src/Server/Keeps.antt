-- ===== src/Server/Keeps.antt =====
-- src/transport/WebSocketServer.ts: each handler keeps an instance consistent.
use live_r.Base.{
  ℕ, ◌≡◌, ◌≤◌, refl, sym, subst, Bool, true, false, List, [], ◌∷◌, Option, none, some, Bool-cases,
  inl, inr,
}
use live_r.Base.Text.{Str, codes}
use live_r.Base.Equality.{str_eq, nat_eq}
use live_r.Base.Sets
use live_r.Protocol.{ClientMessage}
use live_r.Protocol
use live_r.Types.{UserData, Ws}
use live_r.Connections
use live_r.Connections.Invariant.{IsIndexed, DistinctIds, registered}
use live_r.Connections.Add.{add-IsIndexed}
use live_r.Connections.Remove.{remove-IsIndexed}
use live_r.Rooms.{RoomManager}
use live_r.Rooms
use live_r.Rooms.Invariant.{IsSynced}
use live_r.Rooms.Subscribe.{subscribe-IsSynced}
use live_r.Rooms.Unsubscribe.{unsubscribe-IsSynced}
use live_r.Rooms.Leave.{leave-IsSynced}
use live_r.Rooms.Relation.{max-step, subscribes, unsubscribes, leaves, step}
use live_r.Metrics.{increment_messages_received}
use live_r.Server.{
  count, is_ping, Options, Server, Received, handled, awaits_limit, assign, join_rooms, on_open,
  on_subscribe, on_unsubscribe, on_publish, handle_message, on_message, limit_answered, on_close,
}
use live_r.Server.Invariant.{IsServing, SameIds-assign, IsIndexed-SameIds, DistinctIds-SameIds}

unfoldable pub IsRooms : RoomManager → Type 0
IsRooms m = IsSynced m × (1 ≤ m.max_rooms_per_user)

subscribe-IsRooms :
    (now : ℕ) (u r : Str) (m : RoomManager) → IsRooms m → IsRooms (Rooms.subscribe now u r m).0
unfolding IsRooms step
subscribe-IsRooms now u r m (v, pos) = (
  subscribe-IsSynced now u r m pos v,
  subst (λ n. 1 ≤ n) (sym (max-step m (subscribes now u r))) pos,
)

unsubscribe-IsRooms :
    (u r : Str) (m : RoomManager) → IsRooms m → IsRooms (Rooms.unsubscribe u r m).0
unfolding IsRooms step
unsubscribe-IsRooms u r m (v, pos) =
    (unsubscribe-IsSynced u r m v, subst (λ n. 1 ≤ n) (sym (max-step m (unsubscribes u r))) pos)

leave-IsRooms :
    (u : Str) (m : RoomManager) → IsRooms m → IsRooms (Rooms.remove_user_from_all_rooms u m).0
unfolding IsRooms step
leave-IsRooms u m (v, pos) =
    (leave-IsSynced u m v, subst (λ n. 1 ≤ n) (sym (max-step m (leaves u))) pos)

join_rooms-IsRooms :
    (now : ℕ) (ws : Ws) (u : Str) (rooms : List Str) (m : RoomManager)
    → IsRooms m
    → IsRooms (join_rooms now ws u rooms m).0
unfolding join_rooms
join_rooms-IsRooms now ws u [] m v = v
join_rooms-IsRooms now ws u (r ∷ rooms) m v =
    join_rooms-IsRooms now ws u rooms (Rooms.subscribe now u r m).0 (subscribe-IsRooms now u r m v)

pub serving :
    {s : Server}
    → DistinctIds s.user_data
    → IsIndexed s.user_data s.connections
    → IsRooms s.rooms
    → IsServing s
unfolding IsRooms
serving d v (w, pos) = record { distinct = d; indexed = v; synced = w; some_room = pos }

rooms_serving : (s : Server) → IsServing s → IsRooms s.rooms
unfolding IsRooms
rooms_serving s v = (v.synced, v.some_room)

pub on_close-IsServing :
    (o : Options) (ws : Ws) (s : Server) → IsServing s → IsServing (on_close o ws s).0
unfolding on_close
on_close-IsServing o ws s v =
    serving v.distinct (remove-IsIndexed s.user_data ws s.connections v.distinct v.indexed).0
      (leave-IsRooms (s.user_data ws).user_id s.rooms (rooms_serving s v))

pub on_open-IsServing :
    (o : Options) (now : ℕ) (ws : Ws) (s : Server)
    → IsServing s
    → registered s.user_data ws s.connections ≡ false
    → IsServing (on_open o now ws s).0
unfolding on_open
on_open-IsServing o now ws s v off =
    let indexed = add-IsIndexed s.user_data ws s.connections v.distinct v.indexed off in
    elim (Bool-cases (Connections.add s.user_data ws s.connections).1) [
      | inl done ↦ rw done (
          serving v.distinct indexed (
            join_rooms-IsRooms now ws (s.user_data ws).user_id (s.user_data ws).rooms s.rooms
              (rooms_serving s v)))
      | inr denied ↦ rw denied (
          on_close-IsServing o ws
            (record s { connections = (Connections.add s.user_data ws s.connections).0 })
            (serving v.distinct indexed (rooms_serving s v)))
    ]

-- A socket's object is assigned to, and the rooms may change.
assigned-IsServing :
    (ws : Ws) (data' : UserData) (m : RoomManager) (s : Server) {t : Server}
    → IsServing s
    → IsRooms m
    → data'.user_id ≡ (s.user_data ws).user_id
    → data'.connection_id ≡ (s.user_data ws).connection_id
    → t.user_data ≡ assign ws data' s.user_data
    → t.connections ≡ s.connections
    → t.rooms ≡ m
    → IsServing t
assigned-IsServing ws data' m s v w user connection heap same rooms =
    let ids = SameIds-assign s.user_data ws data' user connection in
    serving (rw heap (DistinctIds-SameIds s.user_data (assign ws data' s.user_data) ids v.distinct))
      (rw (heap, same)
        (IsIndexed-SameIds s.user_data (assign ws data' s.user_data) s.connections ids v.indexed))
      (rw rooms w)

on_subscribe-IsServing :
    (o : Options) (now : ℕ) (ws : Ws) (room : Str) (s : Server)
    → IsServing s
    → IsServing (on_subscribe o now ws room s).0
unfolding on_subscribe
on_subscribe-IsServing o now ws room s v =
    let kept = subscribe-IsRooms now (s.user_data ws).user_id room s.rooms (rooms_serving s v) in
    elim (Bool-cases (Rooms.subscribe now (s.user_data ws).user_id room s.rooms).1) [
      | inl done ↦ rw done (
          assigned-IsServing ws
            (record (s.user_data ws) { rooms = Sets.add room (s.user_data ws).rooms })
            (Rooms.subscribe now (s.user_data ws).user_id room s.rooms).0 s v kept refl refl refl
            refl refl)
      | inr denied ↦ rw denied (serving v.distinct v.indexed kept)
    ]

handle_message-IsServing :
    (o : Options) (now : ℕ) (ws : Ws) (parsed : ClientMessage) (s : Server)
    → IsServing s
    → IsServing (handle_message o now ws parsed s).0
unfolding handle_message on_unsubscribe on_publish
handle_message-IsServing o now ws Protocol.ping s v =
    assigned-IsServing ws (record (s.user_data ws) { last_pong = now }) s.rooms s v
      (rooms_serving s v) refl refl refl refl refl
handle_message-IsServing o now ws (Protocol.subscribe room) s v =
    on_subscribe-IsServing o now ws room s v
handle_message-IsServing o now ws (Protocol.unsubscribe room) s v =
    assigned-IsServing ws
      (record (s.user_data ws) { rooms = Sets.remove room (s.user_data ws).rooms })
      (Rooms.unsubscribe (s.user_data ws).user_id room s.rooms).0 s v
      (unsubscribe-IsRooms (s.user_data ws).user_id room s.rooms (rooms_serving s v)) refl refl refl
      refl refl
handle_message-IsServing o now ws (Protocol.publish room event data') s v =
    elim (Bool-cases (Sets.has (codes "send") (s.user_data ws).permissions)) [
      | inl done ↦ rw done (serving v.distinct v.indexed (rooms_serving s v))
      | inr denied ↦ rw denied v
    ]

pub limit_answered-IsServing :
    (o : Options) (now : ℕ) (ws : Ws) (parsed : ClientMessage) (allowed : Bool) (s : Server)
    → IsServing s
    → IsServing (limit_answered o now ws parsed allowed s).0
unfolding limit_answered
limit_answered-IsServing o now ws parsed true s v = handle_message-IsServing o now ws parsed s v
limit_answered-IsServing o now ws parsed false s v =
    serving v.distinct v.indexed (rooms_serving s v)

-- The state that the `message` handler leaves.
abbrev pub left_by : Received → Server
left_by (handled s effects) = s
left_by (awaits_limit s identifier parsed) = s

pub on_message-IsServing :
    (o : Options) (now : ℕ) (ws : Ws) (parsed : Option ClientMessage) (s : Server)
    → IsServing s
    → IsServing (left_by (on_message o now ws parsed s))
unfolding on_message
on_message-IsServing o now ws none s v = serving v.distinct v.indexed (rooms_serving s v)
on_message-IsServing o now ws (some parsed) s v =
    let counted =
      serving {s = count o increment_messages_received s} v.distinct v.indexed
        (rooms_serving s v) in
    let served =
      handle_message-IsServing o now ws parsed (count o increment_messages_received s) counted in
    elim (Bool-cases o.rate_limiter) [
      | inl limited ↦ elim (Bool-cases (is_ping parsed)) [
        | inl free ↦ rw (limited, free) served
        | inr asked ↦ rw (limited, asked) counted
      ]
      | inr unlimited ↦ rw unlimited served
    ]
