-- ===== src/Shutdown.antt =====
-- src/utils/gracefulShutdown.ts: the steps of a shutdown. After each `await` the handler goes on when
-- what it awaits is settled; in between, the other handlers may change the connections.
pub mod Trace
pub mod Effects
pub mod Handlers
pub mod Deeds
pub mod Progress
pub mod Goodbye
mod Examples
use live_r.Base.{ℕ, Bool, true, false, List, [], ◌∷◌, ◌++◌, Option, none, some, map, if◌then◌else◌}
use live_r.Base.Text.{codes, Str}
use live_r.Types.{Effect}
use live_r.Protocol.{ServerMessage, system, serialize}
use live_r.Protocol.Values.{Json, text, obj, end, field}
use live_r.Connections.{ConnectionManager, broadcast_all, close_all}

-- A connection to Redis and the listening socket are named by numbers.
pub record ShutdownDependencies : Type 0 where
  pub listen_socket : Option ℕ
  pub redis_pub_sub : Bool
  pub redis_client : Option ℕ
  pub redis_subscriber : Option ℕ
  pub redis_publisher : Option ℕ

pub data ShutdownEffect : Type 0 where
  -- us_listen_socket_close(listenSocket)
  closes_listener : ℕ → ShutdownEffect
  on_connections : Effect → ShutdownEffect
  -- setTimeout(resolve, ms)
  sleeps : ℕ → ShutdownEffect
  -- redisPubSub.shutdown()
  shuts_pub_sub : ShutdownEffect
  -- client.quit()
  quits : ℕ → ShutdownEffect
  -- process.exit(code)
  exits : ℕ → ShutdownEffect

-- What the handler awaits: nothing before the signal, and nothing after the exit.
pub data Awaiting : Type 0 where
  no_signal import_uws sleep_over pub_sub_shutdown : Awaiting
  -- The connection that is asked to quit, and those behind it.
  quit_of : List ℕ → Awaiting
  exited : Awaiting

pub record Shutdown : Type 0 where
  pub is_shutting_down : Bool
  pub awaiting : Awaiting
  pub connection_manager : ConnectionManager

-- setupGracefulShutdown
unfoldable pub set_up : ConnectionManager → Shutdown
set_up manager = record {
  is_shutting_down = false;
  awaiting = no_signal;
  connection_manager = manager;
}

abbrev pub Step : Type 0
Step = Shutdown × List ShutdownEffect

abbrev pub notice : ServerMessage
notice =
    system (codes "shutdown")
      (obj (field (codes "message") (text (codes "Server restarting, please reconnect")) end))

defined : Option ℕ → List ℕ
defined none = []
defined (some client) = client ∷ []

-- [deps.redisClient, deps.redisSubscriber, deps.redisPublisher].filter(…)
unfoldable pub redis_clients : ShutdownDependencies → List ℕ
unfolding defined
redis_clients deps =
    defined deps.redis_client ++ (defined deps.redis_subscriber ++ defined deps.redis_publisher)

-- The loop over the connections to Redis, then the exit.
unfoldable pub quit_next : List ℕ → Shutdown → Step
quit_next [] s = (record s { awaiting = exited }, exits 0 ∷ [])
quit_next (client ∷ rest) s = (record s { awaiting = quit_of rest }, quits client ∷ [])

-- Steps 4 and 5, up to the next `await`.
unfoldable pub close_connections : ShutdownDependencies → Shutdown → Step
unfolding quit_next redis_clients
close_connections deps s =
    let (manager, ended) = close_all 1001 (codes "Server shutdown") s.connection_manager in
    let s' = record s { connection_manager = manager } in
    let (next, effects) =
      if deps.redis_pub_sub
      then (record s' { awaiting = pub_sub_shutdown }, shuts_pub_sub ∷ [])
      else quit_next (redis_clients deps) s' in
    (next, map on_connections ended ++ effects)

-- Steps 2 and 3.
unfoldable pub notify_clients : Shutdown → Step
notify_clients s = (
  record s { awaiting = sleep_over },
  map on_connections (broadcast_all (serialize notice) s.connection_manager).0 ++ sleeps 2000 ∷ [],
)

-- `shutdown` up to its first `await`.
unfoldable pub on_signal : ShutdownDependencies → Shutdown → Step
unfolding notify_clients
on_signal deps s =
    let begun = record s { is_shutting_down = true } in
    let first : Step = elim deps.listen_socket [
      | none ↦ notify_clients begun
      | some listener ↦ (record begun { awaiting = import_uws }, [])
    ] in
    if s.is_shutting_down then (s, []) else first

after_import : ShutdownDependencies → Shutdown → Step
unfolding notify_clients
after_import deps s =
    let (next, effects) = notify_clients s in
    elim deps.listen_socket [
      | none ↦ (next, effects)
      | some listener ↦ (next, closes_listener listener ∷ effects)
    ]

-- What is awaited is settled. Neither a `quit` that is rejected nor one that is resolved stops the
-- loop, and the shutdown of the pub/sub catches its errors.
unfoldable pub on_settled : ShutdownDependencies → Shutdown → Step
unfolding after_import close_connections quit_next redis_clients
on_settled deps s = elim s.awaiting [
  | no_signal ↦ (s, [])
  | import_uws ↦ after_import deps s
  | sleep_over ↦ close_connections deps s
  | pub_sub_shutdown ↦ quit_next (redis_clients deps) s
  | quit_of rest ↦ quit_next rest s
  | exited ↦ (s, [])
]
