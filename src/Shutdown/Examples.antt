-- ===== src/Shutdown/Examples.antt =====
-- Tests and instances for src/utils/gracefulShutdown.ts.
use live_r.Base.{◌≡◌, refl, true, List, [], ◌∷◌, some, arith, to_nat}
use live_r.Base.Text.{codes}
use live_r.Base.Dict
use live_r.Types.{Heap, sends_to, ends_of}
use live_r.Connections.{ConnectionManager, create, add}
use live_r.Connections.Invariant.{IsIndexed, DistinctIds, registered, create-IsIndexed}
use live_r.Connections.Add.{add-IsIndexed}
use live_r.Shutdown.{
  ShutdownDependencies, closes_listener, sleeps, shuts_pub_sub, quits, exits, exited, redis_clients,
  set_up, on_settled, import_uws, sleep_over,
}
use live_r.Shutdown.Trace.{ShutdownEvent, signals, settles, changes, run, exits_in, quits_in, Rises}
use live_r.Shutdown.Deeds.{deeds, whole}
use live_r.Shutdown.Progress.{shutdown_completes}
use live_r.Shutdown.Goodbye.{goodbye_outcome, to_connections}

-- Three connections to Redis, numbered in the order of the list.
abbrev cluster : ShutdownDependencies
cluster = record {
  listen_socket = some 0;
  redis_pub_sub = true;
  redis_client = some 1;
  redis_subscriber = some 2;
  redis_publisher = some 3;
}

abbrev sockets : Heap
sockets w = record {
  user_id = codes "ann";
  connection_id = w ∷ [];
  rooms = [];
  permissions = [];
  connected_at = 0;
  last_pong = 0;
}

sockets_distinct : DistinctIds sockets
sockets_distinct v w e = ground arith

abbrev one : ConnectionManager
one = (add sockets 0 (create 3)).0

one-IsIndexed : IsIndexed sockets one
unfolding create Dict.get
one-IsIndexed =
    add-IsIndexed sockets 0 (create 3) sockets_distinct (create-IsIndexed sockets 3) refl

-- A second signal and a connection that goes, between what is awaited.
abbrev events : List ShutdownEvent
events =
    settles ∷ changes (create 3) ∷ settles ∷ signals ∷ settles ∷ settles ∷ settles ∷ settles ∷ []

shutdown_completes_example :
    let r = run cluster (signals ∷ events) (set_up one) in
    (r.0.awaiting ≡ exited)
    × (exits_in r.1 ≡ 1)
    × (quits_in r.1 ≡ redis_clients cluster)
    × (deeds r.1 ≡ whole cluster)
    × Rises 0 6 r.1
unfolding redis_clients
shutdown_completes_example = shutdown_completes cluster one events (omega arith)

cluster_steps :
    whole cluster
    ≡ closes_listener 0 ∷ sleeps 2000 ∷ shuts_pub_sub ∷ quits 1 ∷ quits 2 ∷ quits 3 ∷ exits 0 ∷ []
unfolding redis_clients
cluster_steps = refl

three_quit : redis_clients cluster ≡ 1 ∷ 2 ∷ 3 ∷ []
unfolding redis_clients
three_quit = refl

goodbye_outcome_example :
    let told = on_settled cluster (record (set_up one) { awaiting = import_uws }) in
    let ended = on_settled cluster (record (set_up one) { awaiting = sleep_over }) in
    (sends_to 0 (to_connections told.1) ≡ to_nat (registered sockets 0 one))
    × (told.0.connection_manager ≡ one)
    × (ends_of 0 (to_connections ended.1) ≡ to_nat (registered sockets 0 one))
    × (ended.0.connection_manager ≡ create one.max_connections)
unfolding set_up
goodbye_outcome_example = goodbye_outcome sockets 0 cluster (set_up one) one-IsIndexed
