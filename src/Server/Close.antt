-- ===== src/Server/Close.antt =====
-- The `close` handler of src/transport/WebSocketServer.ts, and a socket that was refused.
use live_r.Base.{ℕ, ◌+◌, ◌≡◌, ◌≢◌, refl, ap, true, false, ◌&&◌, not, to_nat, arith}
use live_r.Base.Text.{Str}
use live_r.Base.Equality.{str_eq, nat_eq, ◌==◌, eq_iff}
use live_r.Types.{Ws}
use live_r.Connections
use live_r.Connections.Invariant.{registered}
use live_r.Connections.Add.{add_full}
use live_r.Connections.Remove.{remove-IsIndexed}
use live_r.Rooms.{is_member}
use live_r.Rooms.Leave.{is_member-leave}
use live_r.Metrics.{increment_connections_closed}
use live_r.Server.{Options, Server, on_open, on_close}
use live_r.Server.Invariant.{IsServing}

-- From a consistent instance, `close` takes out the socket and no other, ends every membership of
-- its user and no other's, and counts one closed connection, if there are metrics.
pub on_close_outcome :
    (o : Options) (ws w : Ws) (user room : Str) (s : Server)
    → IsServing s
    → let r = on_close o ws s in
      (registered s.user_data w r.0.connections
        ≡ (not (ws == w) && registered s.user_data w s.connections))
      × (is_member user room r.0.rooms
          ≡ (not ((s.user_data ws).user_id == user) && is_member user room s.rooms))
      × (r.0.metrics.connections_closed ≡ s.metrics.connections_closed + to_nat o.metrics)
unfolding on_close increment_connections_closed
on_close_outcome o ws w user room s v = (
  (remove-IsIndexed s.user_data ws s.connections v.distinct v.indexed).1 w,
  (is_member-leave (s.user_data ws).user_id user room s.rooms v.synced).1,
  ground arith,
)

-- Of two sockets of a user, the first to close takes the user out of every room: the other stays
-- registered, while the user it serves is counted as a member nowhere.
pub close_drops_other :
    (o : Options) (ws v : Ws) (room : Str) (s : Server)
    → IsServing s
    → ws ≢ v
    → (s.user_data ws).user_id ≡ (s.user_data v).user_id
    → registered s.user_data v s.connections ≡ true
    → let r = on_close o ws s in
      (registered s.user_data v r.0.connections ≡ true)
      × (is_member (s.user_data v).user_id room r.0.rooms ≡ false)
close_drops_other o ws v room s i other same on =
    let r = on_close_outcome o ws v (s.user_data v).user_id room s i in
    (
      ground (arith, r.0, on, eq_iff ws v, other),
      ground (arith, r.1, same, eq_iff (s.user_data ws).user_id (s.user_data v).user_id),
    )

on_open_full :
    (o : Options) (now : ℕ) (ws : Ws) (s : Server)
    → Connections.size s.connections ≡ s.connections.max_connections
    → (on_open o now ws s).0 ≡ (on_close o ws s).0
unfolding on_open Connections.size
on_open_full o now ws s full = rw (add_full s.user_data ws s.connections (ground arith)) refl

-- A socket that the full instance refuses on opening is closed by that: it counts one closed and no
-- opened connection, and takes the user out of every room, although another socket of the user was
-- registered before and still is.
pub refused_drops_other :
    (o : Options) (now : ℕ) (ws v : Ws) (room : Str) (s : Server)
    → IsServing s
    → registered s.user_data ws s.connections ≡ false
    → Connections.size s.connections ≡ s.connections.max_connections
    → (s.user_data ws).user_id ≡ (s.user_data v).user_id
    → registered s.user_data v s.connections ≡ true
    → let r = on_open o now ws s in
      (registered s.user_data v r.0.connections ≡ true)
      × (is_member (s.user_data v).user_id room r.0.rooms ≡ false)
      × (r.0.metrics.connections_opened ≡ s.metrics.connections_opened)
      × (r.0.metrics.connections_closed ≡ s.metrics.connections_closed + to_nat o.metrics)
refused_drops_other o now ws v room s i off full same on =
    let other : ws ≢ v =
      λ e. ground (arith, off, on, ap (λ w. registered s.user_data w s.connections) e) in
    rw (on_open_full o now ws s full) (
      (close_drops_other o ws v room s i other same on).0,
      (close_drops_other o ws v room s i other same on).1,
      unfold on_close increment_connections_closed in ground arith,
      (on_close_outcome o ws v (s.user_data v).user_id room s i).2,
    )
