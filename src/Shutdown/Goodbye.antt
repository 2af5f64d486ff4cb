-- ===== src/Shutdown/Goodbye.antt =====
-- src/utils/gracefulShutdown.ts: whom a shutdown notifies and ends.
use live_r.Base.{
  ℕ, ◌≡◌, refl, ◌∙◌, ap, Bool, true, false, List, [], ◌∷◌, ◌++◌, Option, none, some, map, to_nat,
  if◌then◌else◌,
}
use mathlib.Core.List.{append-nil}
use live_r.Base.Text.{codes}
use live_r.Types.{Effect, Ws, Heap, sends_to, ends_of}
use live_r.Protocol.{serialize}
use live_r.Connections.{broadcast_all, close_all, create}
use live_r.Connections.Invariant.{IsIndexed, registered}
use live_r.Connections.Send.{sends-broadcast_all, ends-close_all}
use live_r.Shutdown.{
  ShutdownDependencies, ShutdownEffect, closes_listener, on_connections, sleeps, shuts_pub_sub,
  import_uws, sleep_over, Shutdown, Step, redis_clients, quit_next, close_connections,
  notify_clients, after_import, on_settled, notice, pub_sub_shutdown,
}

-- What a shutdown does to the connections.
abbrev pub to_connections : List ShutdownEffect → List Effect
to_connections [] = []
to_connections (on_connections e ∷ es) = e ∷ to_connections es
to_connections (e ∷ es) = to_connections es

to_connections-append :
    (es : List Effect) (fs : List ShutdownEffect)
    → to_connections (map on_connections es ++ fs) ≡ es ++ to_connections fs
to_connections-append [] fs = refl
to_connections-append (e ∷ es) fs = ap (λ rest. e ∷ rest) (to_connections-append es fs)

-- What is done after connections are told or ended does not touch them.
quit_next-to_connections :
    (clients : List ℕ) (s : Shutdown) → to_connections (quit_next clients s).1 ≡ []
unfolding quit_next
quit_next-to_connections [] s = refl
quit_next-to_connections (client ∷ rest) s = refl

manager-quit_next :
    (clients : List ℕ) (s : Shutdown)
    → (quit_next clients s).0.connection_manager ≡ s.connection_manager
unfolding quit_next
manager-quit_next [] s = refl
manager-quit_next (client ∷ rest) s = refl

notify_clients-to_connections :
    (s : Shutdown)
    → to_connections (notify_clients s).1
      ≡ (broadcast_all (serialize notice) s.connection_manager).0
unfolding notify_clients
notify_clients-to_connections s =
    let told = (broadcast_all (serialize notice) s.connection_manager).0 in
    to_connections-append told (sleeps 2000 ∷ []) ∙ append-nil told

-- The listening socket is no connection.
after_import-to_connections :
    (deps : ShutdownDependencies) (s : Shutdown)
    → (to_connections (after_import deps s).1 ≡ to_connections (notify_clients s).1)
      × ((after_import deps s).0 ≡ (notify_clients s).0)
unfolding after_import
after_import-to_connections deps s =
    elim deps.listen_socket
      as (λ (l : Option ℕ).
        (to_connections (imported l).1 ≡ to_connections (notify_clients s).1)
        × ((imported l).0 ≡ (notify_clients s).0)) [
          | none ↦ (refl, refl)
          | some listener ↦ (refl, refl)
        ]
  where
    imported : Option ℕ → Step
    imported none = notify_clients s
    imported (some listener) =
        ((notify_clients s).0, closes_listener listener ∷ (notify_clients s).1)

close_connections-to_connections :
    (deps : ShutdownDependencies) (s : Shutdown)
    → let closed = close_all 1001 (codes "Server shutdown") s.connection_manager in
      (to_connections (close_connections deps s).1 ≡ closed.1)
      × ((close_connections deps s).0.connection_manager ≡ closed.0)
unfolding close_connections
close_connections-to_connections deps s =
    let closed = close_all 1001 (codes "Server shutdown") s.connection_manager in
    elim deps.redis_pub_sub
      as (λ (b : Bool).
        (to_connections (map on_connections closed.1 ++ (next b).1) ≡ closed.1)
        × ((next b).0.connection_manager ≡ closed.0)) [
          | true ↦ (to_connections-append closed.1 (shuts_pub_sub ∷ []) ∙ append-nil closed.1, refl)
          | false ↦ (
            to_connections-append closed.1 (next false).1
                ∙ ap (λ es. closed.1 ++ es) (quit_next-to_connections (redis_clients deps) emptied)
                ∙ append-nil closed.1,
            manager-quit_next (redis_clients deps) emptied,
          )
        ]
  where
    emptied : Shutdown
    emptied = record s {
      connection_manager = (close_all 1001 (codes "Server shutdown") s.connection_manager).0;
    }

    next : Bool → Step
    next b =
        if b
        then (record emptied { awaiting = pub_sub_shutdown }, shuts_pub_sub ∷ [])
        else quit_next (redis_clients deps) emptied

-- When the listening socket is closed, a shutdown sends its notice once to each registered socket and
-- to no other, and changes no connection. When the two seconds are over it ends each socket that is
-- registered then, once and no other, and leaves no connection and no user.
pub goodbye_outcome :
    (h : Heap) (w : Ws) (deps : ShutdownDependencies) (s : Shutdown)
    → IsIndexed h s.connection_manager
    → let m = s.connection_manager in
      let told = on_settled deps (record s { awaiting = import_uws }) in
      let ended = on_settled deps (record s { awaiting = sleep_over }) in
      (sends_to w (to_connections told.1) ≡ to_nat (registered h w m))
      × (told.0.connection_manager ≡ m)
      × (ends_of w (to_connections ended.1) ≡ to_nat (registered h w m))
      × (ended.0.connection_manager ≡ create m.max_connections)
unfolding on_settled notify_clients
goodbye_outcome h w deps s i =
    let m = s.connection_manager in
    let waiting = record s { awaiting = import_uws } in
    let slept = record s { awaiting = sleep_over } in
    let told = after_import-to_connections deps waiting in
    let closed = close_connections-to_connections deps slept in
    let ends = ends-close_all h 1001 (codes "Server shutdown") w m i in
    (
      ap (sends_to w) (told.0 ∙ notify_clients-to_connections waiting)
          ∙ (sends-broadcast_all h (serialize notice) w m i).0,
      ap (λ (t : Shutdown). t.connection_manager) told.1,
      ap (ends_of w) closed.0 ∙ ends.0,
      closed.1 ∙ ends.1,
    )
