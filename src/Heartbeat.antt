-- ===== src/Heartbeat.antt =====
-- src/core/Heartbeat.ts: one run of the timer's callback. `Date.now()` is an argument.
pub mod Tick
pub mod Silent
mod Examples
use live_r.Base.{ℕ, ◌+◌, Bool, true, false, List, [], ◌∷◌, ltb, if◌then◌else◌}
use live_r.Base.Text.{Str, codes}
use live_r.Types.{Ws, Heap, Effect, send, end}
use live_r.Connections.{ConnectionManager, get_all_connections}

-- JSON.stringify({ type: 'ping' })
abbrev pub ping_payload : Str
ping_payload = codes "{\"type\":\"ping\"}"

-- elapsed > interval + timeout, for elapsed = now - lastPong, which may be negative
unfoldable pub is_stale : ℕ → ℕ → ℕ → ℕ → Bool
is_stale interval timeout now last_pong = ltb (last_pong + (interval + timeout)) now

unfoldable pub beat_each : Heap → ℕ → ℕ → ℕ → List Ws → List Effect
unfolding is_stale
beat_each h interval timeout now [] = []
beat_each h interval timeout now (ws ∷ rest) =
    (if is_stale interval timeout now (h ws).last_pong
      then end ws 1001 (codes "Heartbeat timeout")
      else send ws ping_payload)
    ∷ beat_each h interval timeout now rest

unfoldable pub tick : Heap → ℕ → ℕ → ℕ → ConnectionManager → List Effect
unfolding beat_each
tick h interval timeout now m = beat_each h interval timeout now (get_all_connections m)
