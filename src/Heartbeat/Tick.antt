-- ===== src/Heartbeat/Tick.antt =====
-- src/core/Heartbeat.ts: whom one run of the callback pings and whom it ends.
use live_r.Base.{ℕ, ◌+◌, ◌≡◌, ap, ◌&&◌, not, List, [], ◌∷◌, if◌then◌else◌, ltb, to_nat, arith}
use live_r.Base.Equality.{nat_eq, str_eq, eq_iff}
use live_r.Types.{Ws, Heap, sends_to, ends_of}
use live_r.Connections.{ConnectionManager, get_all_connections}
use live_r.Connections.Invariant.{IsIndexed, registered}
use live_r.Connections.Send.{times, times-connections}
use live_r.Heartbeat.{is_stale, beat_each, tick}

each_beat :
    (h : Heap) (interval timeout now : ℕ) (w : Ws) (sockets : List Ws)
    → let es = beat_each h interval timeout now sockets in
      let stale = is_stale interval timeout now (h w).last_pong in
      (sends_to w es ≡ (if stale then 0 else times w sockets))
      × (ends_of w es ≡ (if stale then times w sockets else 0))
unfolding beat_each
each_beat h interval timeout now w [] = (ground arith, ground arith)
each_beat h interval timeout now w (v ∷ sockets) =
    let rest = each_beat h interval timeout now w sockets in
    let own = ap (λ (u : Ws). is_stale interval timeout now (h u).last_pong) {x = v} {y = w} in
    (ground (arith, rest.0, eq_iff v w, own), ground (arith, rest.1, eq_iff v w, own))

-- From consistent connections, a run ends each registered socket whose last pong is more than
-- `interval + timeout` ago, once, and sends each other registered socket one ping; it does nothing
-- to a socket that is not registered.
pub tick_outcome :
    (h : Heap) (interval timeout now : ℕ) (w : Ws) (m : ConnectionManager)
    → IsIndexed h m
    → let es = tick h interval timeout now m in
      let stale = ltb ((h w).last_pong + (interval + timeout)) now in
      (sends_to w es ≡ to_nat (registered h w m && not stale))
      × (ends_of w es ≡ to_nat (registered h w m && stale))
unfolding tick get_all_connections is_stale
tick_outcome h interval timeout now w m v =
    let each = each_beat h interval timeout now w (get_all_connections m) in
    let once = times-connections h w m.connections v.connection_keys v.keyed in
    (ground (arith, each.0, once), ground (arith, each.1, once))
