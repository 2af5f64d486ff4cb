-- ===== src/Start/Ready.antt =====
-- src/index.ts: an instance made from a configuration that has been loaded.
use live_r.Base.{ℕ, ◌≤◌, ◌≡◌, ◌≢◌, sym, subst, ap, [], ◌∷◌, ◌++◌, arith, drop}
use live_r.Base.Text.{Str, codes}
use live_r.Types.{Heap, Ws}
use live_r.Protocol.{ClientMessage}
use live_r.Server.{Server, Options, Received, handled, awaits_limit, on_message}
use live_r.Base.{Option, none, some}
use live_r.Connections
use live_r.Connections.Invariant.{DistinctIds}
use live_r.Rooms
use live_r.Limiter.{key_of}
use live_r.Server.Reach.{Reachable, start}
use live_r.Http.Address.{limit_identifier}
use live_r.Config.{
  ConfigKey, Config, Environment, loaded, load_config, rate_limit_window, rate_limit_max_messages,
  rate_limit_max_requests, ws_heartbeat_interval, ws_heartbeat_timeout, ws_max_rooms_per_connection,
  ws_max_connections,
}
use live_r.Config.Schemas.{Zod, IsZod, Value}
use live_r.Config.Loaded.{IsPositive, load_config_bounds}
use live_r.Start.{make_instance, to_number}

to_number-IsPositive : (v : Value) → IsPositive v → 1 ≤ to_number v
to_number-IsPositive v (n, e, le) = subst (λ w. 1 ≤ to_number w) (sym e) le

-- An instance of a loaded configuration starts in a state from which every later one is consistent,
-- its limits of connections and of rooms, its heartbeat, and the windows and limits of both rate
-- limiters are at least 1.
pub ready_outcome :
    (zod : Zod ConfigKey) (env : Environment) (config : Config) (h : Heap) (now : ℕ)
    → IsZod zod
    → load_config zod env ≡ loaded config
    → DistinctIds h
    → let i = make_instance h now config in
      Reachable i.options i.server
      × (1 ≤ i.server.connections.max_connections)
      × (1 ≤ i.server.rooms.max_rooms_per_user)
      × (1 ≤ i.heartbeat_interval)
      × (1 ≤ i.heartbeat_timeout)
      × (1 ≤ i.ws_rate_limiter.window_ms)
      × (1 ≤ i.ws_rate_limiter.max_requests)
      × (1 ≤ i.http_rate_limiter.window_ms)
      × (1 ≤ i.http_rate_limiter.max_requests)
unfolding make_instance Connections.create Rooms.create
ready_outcome zod env config h now is_zod ready d =
    let b = load_config_bounds zod is_zod env config ready in
    let rooms = to_number-IsPositive (config ws_max_rooms_per_connection) b.6 in
    let window = to_number-IsPositive (config rate_limit_window) b.7 in
    (
      start h (to_number (config ws_max_connections))
          (to_number (config ws_max_rooms_per_connection)) now d rooms,
      to_number-IsPositive (config ws_max_connections) b.5,
      rooms,
      to_number-IsPositive (config ws_heartbeat_interval) b.3,
      to_number-IsPositive (config ws_heartbeat_timeout) b.4,
      window,
      to_number-IsPositive (config rate_limit_max_messages) b.8,
      window,
      to_number-IsPositive (config rate_limit_max_requests) b.9,
    )

-- The letter behind `ratelimit:`.
tenth : Str → ℕ
tenth s = elim (drop 10 s) [ [] ↦ 0 | c ∷ rest ↦ c ]

-- The identifier that a message waits for.
abbrev pub awaited : Received → Option Str
awaited (handled s effects) = none
awaited (awaits_limit s identifier parsed) = some identifier

second_of : Option Str → ℕ
second_of none = 0
second_of (some s) = tenth (codes "ratelimit:" ++ s)

awaited_letter :
    (o : Options) (now : ℕ) (ws : Ws) (parsed : Option ClientMessage) (s : Server) (id : Str)
    → awaited (on_message o now ws parsed s) ≡ some id
    → tenth (codes "ratelimit:" ++ id) ≡ 119
unfolding on_message tenth second_of
awaited_letter o now ws none s id e = absurd (ground (arith, e))
awaited_letter o now ws (some parsed) s id e = ground (arith, ap second_of e)

-- The two rate limiters have one prefix in one store, and still never count for each other: the key
-- by which a WebSocket message of any socket is limited differs from that of a request from any HTTP
-- address, whatever the user and the address are called.
pub limiters_apart :
    (h : Heap) (now : ℕ) (config : Config) (ws : Ws) (parsed : Option ClientMessage) (s : Server)
    (id forwarded : Str)
    → awaited (on_message (make_instance h now config).options now ws parsed s) ≡ some id
    → let i = make_instance h now config in
      key_of i.ws_rate_limiter id ≢ key_of i.http_rate_limiter (limit_identifier forwarded)
unfolding make_instance key_of limit_identifier tenth
limiters_apart h now config ws parsed s id forwarded waits =
    let letter = awaited_letter (make_instance h now config).options now ws parsed s id waits in
    λ e. absurd (omega (arith, ap tenth e, letter))
