-- ===== src/Server/Reach.antt =====
-- src/transport/WebSocketServer.ts: the states an instance can come to, and that all of them are
-- consistent. The handlers run one at a time; a socket is opened once, and `checkLimit` may answer
-- at any later time.
use live_r.Base.{ℕ, ◌≡◌, ◌≤◌, Bool, false, Option}
use live_r.Base.Equality.{str_eq, nat_eq}
use live_r.Protocol.{ClientMessage}
use live_r.Types.{Ws, Heap}
use live_r.Connections
use live_r.Connections.Invariant.{DistinctIds, registered, create-IsIndexed}
use live_r.Rooms.{RoomManager}
use live_r.Rooms
use live_r.Rooms.Invariant.{create-IsSynced}
use live_r.Metrics
use live_r.Metrics.{increment_messages_received}
use live_r.Server.{Options, Server, on_open, on_message, limit_answered, on_close}
use live_r.Server.Invariant.{IsServing}
use live_r.Server.Keeps.{
  IsRooms, serving, left_by, on_open-IsServing, on_message-IsServing, limit_answered-IsServing,
  on_close-IsServing,
}

-- An instance as src/index.ts makes it.
abbrev pub start_of : Heap → ℕ → ℕ → ℕ → Server
start_of h max_connections max_rooms started = record {
  user_data = h;
  connections = Connections.create max_connections;
  rooms = Rooms.create max_rooms;
  metrics = Metrics.create started;
}

start-IsServing :
    (h : Heap) (max_connections max_rooms started : ℕ)
    → DistinctIds h
    → 1 ≤ max_rooms
    → IsServing (start_of h max_connections max_rooms started)
unfolding IsRooms Rooms.create
start-IsServing h max_connections max_rooms started d pos =
    serving d (create-IsIndexed h max_connections) (create-IsSynced max_rooms, pos)

-- What can come to be, from a start with nobody connected. The data of all sockets to come stands in
-- the heap at the start, and no two have one connection id.
pub data Reachable (o : Options) : Server → Type 0 where
  start :
      (h : Heap) (max_connections max_rooms started : ℕ)
      → DistinctIds h
      → 1 ≤ max_rooms
      → Reachable o (start_of h max_connections max_rooms started)
  opened :
      (now : ℕ) (ws : Ws) (s : Server)
      → Reachable o s
      → registered s.user_data ws s.connections ≡ false
      → Reachable o (on_open o now ws s).0
  received :
      (now : ℕ) (ws : Ws) (parsed : Option ClientMessage) (s : Server)
      → Reachable o s
      → Reachable o (left_by (on_message o now ws parsed s))
  answered :
      (now : ℕ) (ws : Ws) (parsed : ClientMessage) (allowed : Bool) (s : Server)
      → Reachable o s
      → Reachable o (limit_answered o now ws parsed allowed s).0
  closed : (ws : Ws) (s : Server) → Reachable o s → Reachable o (on_close o ws s).0

-- In every state that an instance can come to by opening, receiving, late answers of the rate
-- limiter and closing, in any order: the two maps of the connections index the same sockets within
-- the limit, the two maps of the rooms tell the same pairs within the limit of each user, and no two
-- sockets share a connection id.
pub Reachable-IsServing : (o : Options) (s : Server) → Reachable o s → IsServing s
Reachable-IsServing o s (start h max_connections max_rooms started d pos) =
    start-IsServing h max_connections max_rooms started d pos
Reachable-IsServing o s (opened now ws t r off) =
    on_open-IsServing o now ws t (Reachable-IsServing o t r) off
Reachable-IsServing o s (received now ws parsed t r) =
    on_message-IsServing o now ws parsed t (Reachable-IsServing o t r)
Reachable-IsServing o s (answered now ws parsed allowed t r) =
    limit_answered-IsServing o now ws parsed allowed t (Reachable-IsServing o t r)
Reachable-IsServing o s (closed ws t r) = on_close-IsServing o ws t (Reachable-IsServing o t r)
