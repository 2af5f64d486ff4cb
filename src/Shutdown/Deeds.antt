-- ===== src/Shutdown/Deeds.antt =====
-- src/utils/gracefulShutdown.ts: what a shutdown does beside telling and ending connections.
use live_r.Base.{
  ℕ, ◌≡◌, refl, sym, ◌∙◌, ap, Bool, true, false, List, [], ◌∷◌, ◌++◌, Option, none, some, map,
  if◌then◌else◌,
}
use mathlib.Core.List.{append_assoc, append-nil}
use live_r.Base.Text.{codes}
use live_r.Types.{Effect}
use live_r.Connections.{ConnectionManager, broadcast_all, close_all}
use live_r.Protocol.{serialize}
use live_r.Shutdown.{
  ShutdownDependencies, ShutdownEffect, closes_listener, on_connections, sleeps, shuts_pub_sub,
  quits, exits, Awaiting, no_signal, import_uws, sleep_over, pub_sub_shutdown, quit_of, exited,
  Shutdown, Step, redis_clients, quit_next, close_connections, notify_clients, on_signal,
  after_import, on_settled, notice,
}
use live_r.Shutdown.Trace.{ShutdownEvent, signals, settles, changes, step, run}
use live_r.Shutdown.Handlers.{IsRunning, on_signal-Advances, on_settled-Advances}

-- The effects but for those on connections, in order.
abbrev pub deeds : List ShutdownEffect → List ShutdownEffect
deeds [] = []
deeds (on_connections e ∷ es) = deeds es
deeds (e ∷ es) = e ∷ deeds es

abbrev pub quits_then_exits : List ℕ → List ShutdownEffect
quits_then_exits [] = exits 0 ∷ []
quits_then_exits (client ∷ rest) = quits client ∷ quits_then_exits rest

abbrev pub shuts_if : Bool → List ShutdownEffect
shuts_if true = shuts_pub_sub ∷ []
shuts_if false = []

abbrev pub closes_if : Option ℕ → List ShutdownEffect
closes_if none = []
closes_if (some listener) = closes_listener listener ∷ []

abbrev pub after_notice : ShutdownDependencies → List ShutdownEffect
after_notice deps = shuts_if deps.redis_pub_sub ++ quits_then_exits (redis_clients deps)

-- The whole of a shutdown: the listening socket, if there is one, is closed; two seconds pass; the
-- pub/sub, if there is one, is shut down; each connection to Redis quits; the process exits.
abbrev pub whole : ShutdownDependencies → List ShutdownEffect
whole deps = closes_if deps.listen_socket ++ (sleeps 2000 ∷ after_notice deps)

-- What is left of it.
abbrev pub left : ShutdownDependencies → Awaiting → List ShutdownEffect
left deps no_signal = whole deps
left deps import_uws = whole deps
left deps sleep_over = after_notice deps
left deps pub_sub_shutdown = quits_then_exits (redis_clients deps)
left deps (quit_of rest) = quits_then_exits rest
left deps exited = []

deeds-append : (es fs : List ShutdownEffect) → deeds (es ++ fs) ≡ deeds es ++ deeds fs
deeds-append [] fs = refl
deeds-append (on_connections e ∷ es) fs = deeds-append es fs
deeds-append (closes_listener l ∷ es) fs = ap (λ ds. closes_listener l ∷ ds) (deeds-append es fs)
deeds-append (sleeps ms ∷ es) fs = ap (λ ds. sleeps ms ∷ ds) (deeds-append es fs)
deeds-append (shuts_pub_sub ∷ es) fs = ap (λ ds. shuts_pub_sub ∷ ds) (deeds-append es fs)
deeds-append (quits c ∷ es) fs = ap (λ ds. quits c ∷ ds) (deeds-append es fs)
deeds-append (exits code ∷ es) fs = ap (λ ds. exits code ∷ ds) (deeds-append es fs)

no_deeds :
    (es : List Effect) (fs : List ShutdownEffect) → deeds (map on_connections es ++ fs) ≡ deeds fs
no_deeds [] fs = refl
no_deeds (e ∷ es) fs = no_deeds es fs

-- A part of the handler does what it takes off.
abbrev Does : ShutdownDependencies → List ShutdownEffect → Step → Type 0
Does deps before r = before ≡ deeds r.1 ++ left deps r.0.awaiting

module _ (deps : ShutdownDependencies) where
  quit_next-Does :
      (clients : List ℕ) (s : Shutdown) → Does deps (quits_then_exits clients) (quit_next clients s)
  unfolding quit_next
  quit_next-Does [] s = refl
  quit_next-Does (client ∷ rest) s = refl

  notify_clients-Does :
      (s : Shutdown) → Does deps (sleeps 2000 ∷ after_notice deps) (notify_clients s)
  unfolding notify_clients
  notify_clients-Does s =
      rw (no_deeds (broadcast_all (serialize notice) s.connection_manager).0 (sleeps 2000 ∷ []))
        refl

  after_import-Does : (s : Shutdown) → Does deps (whole deps) (after_import deps s)
  unfolding after_import
  after_import-Does s =
      elim deps.listen_socket
        as (λ (l : Option ℕ).
          Does deps (closes_if l ++ (sleeps 2000 ∷ after_notice deps)) (imported l)) [
            | none ↦ notify_clients-Does s
            | some listener ↦ ap (λ ds. closes_listener listener ∷ ds) (notify_clients-Does s)
          ]
    where
      imported : Option ℕ → Step
      imported none = notify_clients s
      imported (some listener) =
          ((notify_clients s).0, closes_listener listener ∷ (notify_clients s).1)

  close_connections-Does : (s : Shutdown) → Does deps (after_notice deps) (close_connections deps s)
  unfolding close_connections
  close_connections-Does s =
      elim deps.redis_pub_sub
        as (λ (b : Bool).
          Does deps (shuts_if b ++ quits_then_exits (redis_clients deps))
            ((next b).0, map on_connections closed.1 ++ (next b).1)) [
              | true ↦ rw (no_deeds closed.1 (shuts_pub_sub ∷ [])) refl
              | false ↦
                  rw (no_deeds closed.1 (next false).1)
                    (quit_next-Does (redis_clients deps) emptied)
            ]
    where
      closed : ConnectionManager × List Effect
      closed = close_all 1001 (codes "Server shutdown") s.connection_manager

      emptied : Shutdown
      emptied = record s { connection_manager = closed.0 }

      next : Bool → Step
      next b =
          if b
          then (record emptied { awaiting = pub_sub_shutdown }, shuts_pub_sub ∷ [])
          else quit_next (redis_clients deps) emptied

  on_settled-Does :
      (s : Shutdown) → IsRunning s → Does deps (left deps s.awaiting) (on_settled deps s)
  unfolding on_settled
  on_settled-Does s i = settled s.awaiting refl
    where
      settles_at : Awaiting → Step
      settles_at no_signal = (s, [])
      settles_at import_uws = after_import deps s
      settles_at sleep_over = close_connections deps s
      settles_at pub_sub_shutdown = quit_next (redis_clients deps) s
      settles_at (quit_of rest) = quit_next rest s
      settles_at exited = (s, [])

      settled : (a : Awaiting) → s.awaiting ≡ a → Does deps (left deps a) (settles_at a)
      settled no_signal e = sym (ap (left deps) e)
      settled import_uws e = after_import-Does s
      settled sleep_over e = close_connections-Does s
      settled pub_sub_shutdown e = quit_next-Does (redis_clients deps) s
      settled (quit_of rest) e = quit_next-Does rest s
      settled exited e = sym (ap (left deps) e)

  on_signal-Does :
      (s : Shutdown)
      → s.is_shutting_down ≡ true
      → Does deps (left deps s.awaiting) (on_signal deps s)
  unfolding on_signal
  on_signal-Does s going = rw going refl

  pub run-Does :
      (es : List ShutdownEvent) (s : Shutdown)
      → IsRunning s
      → Does deps (left deps s.awaiting) (run deps es s)
  unfolding run step
  run-Does [] s i = refl
  run-Does (signals ∷ es) s i =
      let first = on_signal deps s in
      let rest = run deps es first.0 in
      on_signal-Does s i.0
      ∙ ap (λ ds. deeds first.1 ++ ds) (run-Does es first.0 (on_signal-Advances deps s i).running)
      ∙ sym (append_assoc (deeds first.1) (deeds rest.1) (left deps rest.0.awaiting))
      ∙ ap (λ ds. ds ++ left deps rest.0.awaiting) (sym (deeds-append first.1 rest.1))
  run-Does (settles ∷ es) s i =
      let first = on_settled deps s in
      let rest = run deps es first.0 in
      on_settled-Does s i
      ∙ ap (λ ds. deeds first.1 ++ ds) (run-Does es first.0 (on_settled-Advances deps s i).running)
      ∙ sym (append_assoc (deeds first.1) (deeds rest.1) (left deps rest.0.awaiting))
      ∙ ap (λ ds. ds ++ left deps rest.0.awaiting) (sym (deeds-append first.1 rest.1))
  run-Does (changes m ∷ es) s i = run-Does es (record s { connection_manager = m }) i

  -- From the first signal on.
  pub begins-Does :
      (s : Shutdown) (l : Option ℕ)
      → deps.listen_socket ≡ l
      → Does deps (whole deps) (elim l [
        | none ↦ notify_clients s
        | some listener ↦ (record s { awaiting = import_uws }, [])
      ])
  begins-Does s none e =
      ap (λ l. closes_if l ++ (sleeps 2000 ∷ after_notice deps)) e ∙ notify_clients-Does s
  begins-Does s (some listener) e = refl

  pub finished-Does :
      (first rest : Step)
      → Does deps (whole deps) first
      → Does deps (left deps first.0.awaiting) rest
      → rest.0.awaiting ≡ exited
      → deeds (first.1 ++ rest.1) ≡ whole deps
  finished-Does first rest began went done =
      deeds-append first.1 rest.1
      ∙ ap (λ ds. deeds first.1 ++ ds)
          (sym (went ∙ ap (λ a. deeds rest.1 ++ left deps a) done ∙ append-nil (deeds rest.1)))
      ∙ sym began
