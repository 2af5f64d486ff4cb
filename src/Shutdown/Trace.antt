-- ===== src/Shutdown/Trace.antt =====
-- src/utils/gracefulShutdown.ts: runs of the server with signals, and what is read off them.
use live_r.Base.{
  ℕ, ◌+◌, ◌≤◌, Bool, true, false, List, [], ◌∷◌, ◌++◌, Option, none, some, length, suc, to_nat,
}
use live_r.Types.{send}
use live_r.Connections.{ConnectionManager}
use live_r.Shutdown.{
  ShutdownDependencies, ShutdownEffect, closes_listener, on_connections, sleeps, shuts_pub_sub,
  quits, exits, Awaiting, no_signal, import_uws, sleep_over, pub_sub_shutdown, quit_of, exited,
  Shutdown, Step, redis_clients, on_signal, on_settled,
}

-- A signal, the end of what is awaited, or what other handlers do to the connections.
pub data ShutdownEvent : Type 0 where
  signals settles : ShutdownEvent
  changes : ConnectionManager → ShutdownEvent

unfoldable pub step : ShutdownDependencies → ShutdownEvent → Shutdown → Step
step deps signals s = on_signal deps s
step deps settles s = on_settled deps s
step deps (changes manager) s = (record s { connection_manager = manager }, [])

unfoldable pub run : ShutdownDependencies → List ShutdownEvent → Shutdown → Step
unfolding step
run deps [] s = (s, [])
run deps (e ∷ es) s =
    let (s', effects) = step deps e s in
    let (last, more) = run deps es s' in (last, effects ++ more)

abbrev pub settled_in : List ShutdownEvent → ℕ
settled_in [] = 0
settled_in (settles ∷ es) = suc (settled_in es)
settled_in (e ∷ es) = settled_in es

-- How many times what is awaited is settled before the exit.
abbrev pub awaits_left : ShutdownDependencies → Awaiting → ℕ
awaits_left deps exited = 0
awaits_left deps (quit_of rest) = suc (length rest)
awaits_left deps pub_sub_shutdown = suc (length (redis_clients deps))
awaits_left deps sleep_over = suc (to_nat deps.redis_pub_sub + length (redis_clients deps))
awaits_left deps import_uws = suc (suc (to_nat deps.redis_pub_sub + length (redis_clients deps)))
awaits_left deps no_signal = 0

abbrev pub exits_in : List ShutdownEffect → ℕ
exits_in [] = 0
exits_in (exits code ∷ es) = suc (exits_in es)
exits_in (e ∷ es) = exits_in es

abbrev pub quits_in : List ShutdownEffect → List ℕ
quits_in [] = []
quits_in (quits client ∷ es) = client ∷ quits_in es
quits_in (e ∷ es) = quits_in es

-- The place of an effect in the order of the shutdown.
abbrev pub stage : ShutdownEffect → ℕ
stage (closes_listener listener) = 0
stage (on_connections (send ws payload)) = 1
stage (sleeps ms) = 2
stage (on_connections e) = 3
stage shuts_pub_sub = 4
stage (quits client) = 5
stage (exits code) = 6

-- Stages that do not fall, from `lo` to `hi`.
abbrev pub Rises : ℕ → ℕ → List ShutdownEffect → Type 0
Rises lo hi [] = lo ≤ hi
Rises lo hi (e ∷ es) = (lo ≤ stage e) × Rises (stage e) hi es

abbrev pub reached : Awaiting → ℕ
reached no_signal = 0
reached import_uws = 0
reached sleep_over = 2
reached pub_sub_shutdown = 4
reached (quit_of rest) = 5
reached exited = 6

-- The connections to Redis that have not been asked to quit.
abbrev pub unasked : ShutdownDependencies → Awaiting → List ℕ
unasked deps (quit_of rest) = rest
unasked deps exited = []
unasked deps a = redis_clients deps

abbrev pub has_exited : Awaiting → ℕ
has_exited exited = 1
has_exited a = 0

abbrev pub begun : Awaiting → Bool
begun no_signal = false
begun a = true

abbrev pub imports : Option ℕ → ℕ
imports none = 0
imports (some listener) = 1

-- How many times a whole shutdown awaits something.
abbrev pub awaits_of : ShutdownDependencies → ℕ
awaits_of deps =
    imports deps.listen_socket + suc (to_nat deps.redis_pub_sub + length (redis_clients deps))
