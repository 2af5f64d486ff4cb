-- ===== src/Shutdown/Handlers.antt =====
-- src/utils/gracefulShutdown.ts: how each part of the handler between two awaits takes a shutdown on.
use live_r.Base.{
  ℕ, ◌+◌, ◌-◌, ◌≡◌, refl, sym, subst, ◌∙◌, ap, Bool, true, false, List, [], ◌∷◌, ◌++◌, Option, none,
  some, map, arith, if◌then◌else◌, to_nat,
}
use live_r.Base.Dict
use live_r.Base.Text.{codes, Str}
use live_r.Types.{Ws}
use live_r.Protocol.{serialize}
use live_r.Connections.{broadcast_all, close_all, create, end_each}
use live_r.Shutdown.{
  ShutdownDependencies, closes_listener, on_connections, sleeps, shuts_pub_sub, Awaiting, no_signal,
  import_uws, sleep_over, pub_sub_shutdown, quit_of, exited, Shutdown, Step, redis_clients,
  quit_next, close_connections, notify_clients, on_signal, after_import, on_settled, notice,
}
use live_r.Shutdown.Trace.{
  awaits_left, exits_in, quits_in, Rises, reached, unasked, has_exited, begun,
}
use live_r.Shutdown.Effects.{Rises-weaken, calls_exits, calls_quits, sends-Rises, ends-Rises}

abbrev pub IsRunning : Shutdown → Type 0
IsRunning s = (s.is_shutting_down ≡ true) × (begun s.awaiting ≡ true)

-- A step of a shutdown that has begun, in which `n` awaited things are settled.
pub record Advances (deps : ShutdownDependencies) (a : Awaiting) (n : ℕ) (r : Step) : Type 0 where
  pub running : IsRunning r.0
  pub fewer : awaits_left deps r.0.awaiting ≡ awaits_left deps a - n
  pub exit_count : exits_in r.1 + has_exited a ≡ has_exited r.0.awaiting
  pub quit_rest : unasked deps a ≡ quits_in r.1 ++ unasked deps r.0.awaiting
  pub rising : Rises (reached a) (reached r.0.awaiting) r.1

-- The handlers between two awaits.
module _ (deps : ShutdownDependencies) where
  quit_next-Advances :
      (clients : List ℕ) (s : Shutdown)
      → s.is_shutting_down ≡ true
      → Advances deps (quit_of clients) 1 (quit_next clients s)
  unfolding quit_next
  quit_next-Advances [] s going = record {
    running = (going, refl);
    fewer = omega arith;
    exit_count = refl;
    quit_rest = refl;
    rising = (omega arith, omega arith);
  }
  quit_next-Advances (client ∷ rest) s going = record {
    running = (going, refl);
    fewer = omega arith;
    exit_count = refl;
    quit_rest = refl;
    rising = (omega arith, omega arith);
  }

  pub notify_clients-Advances :
      (s : Shutdown) → s.is_shutting_down ≡ true → Advances deps import_uws 1 (notify_clients s)
  unfolding notify_clients broadcast_all
  notify_clients-Advances s going =
      let told = (broadcast_all (serialize notice) s.connection_manager).0 in
      record {
        running = (going, refl);
        fewer = omega arith;
        exit_count = omega (arith, calls_exits told (sleeps 2000 ∷ []));
        quit_rest = ap (λ cs. cs ++ redis_clients deps) (sym (calls_quits told (sleeps 2000 ∷ [])));
        rising =
            sends-Rises 0 2 (serialize notice) (Dict.values s.connection_manager.connections) 0
              (sleeps 2000 ∷ []) (omega arith) (omega arith, omega arith);
      }

  after_import-Advances :
      (s : Shutdown) → s.is_shutting_down ≡ true → Advances deps import_uws 1 (after_import deps s)
  unfolding after_import
  after_import-Advances s going =
      let told = notify_clients-Advances s going in
      elim deps.listen_socket as (λ (l : Option ℕ). Advances deps import_uws 1 (imported l)) [
        | none ↦ told
        | some listener ↦ record {
          running = told.running;
          fewer = told.fewer;
          exit_count = told.exit_count;
          quit_rest = told.quit_rest;
          rising = (omega arith, told.rising);
        }
      ]
    where
      imported : Option ℕ → Step
      imported none = notify_clients s
      imported (some listener) =
          ((notify_clients s).0, closes_listener listener ∷ (notify_clients s).1)

  -- Ends of connections before other effects.
  ended-Advances :
      (code : ℕ) (message : Str) (vs : List Ws) (r : Step)
      → IsRunning r.0
      → awaits_left deps r.0.awaiting ≡ awaits_left deps sleep_over - 1
      → exits_in r.1 ≡ has_exited r.0.awaiting
      → redis_clients deps ≡ quits_in r.1 ++ unasked deps r.0.awaiting
      → Rises 3 (reached r.0.awaiting) r.1
      → Advances deps sleep_over 1 (r.0, map on_connections (end_each code message vs) ++ r.1)
  ended-Advances code message vs r running fewer exit_count quit_rest rising =
      let ended = end_each code message vs in
      record {
        running = running;
        fewer = fewer;
        exit_count = omega (arith, calls_exits ended r.1, exit_count);
        quit_rest =
            quit_rest ∙ ap (λ cs. cs ++ unasked deps r.0.awaiting) (sym (calls_quits ended r.1));
        rising = ends-Rises 2 (reached r.0.awaiting) code message vs r.1 (omega arith) rising;
      }

  close_connections-Advances :
      (s : Shutdown)
      → s.is_shutting_down ≡ true
      → Advances deps sleep_over 1 (close_connections deps s)
  unfolding close_connections close_all create
  close_connections-Advances s going = by_pub_sub deps.redis_pub_sub refl
    where
      message : Str
      message = codes "Server shutdown"

      emptied : Shutdown
      emptied = record s { connection_manager = (close_all 1001 message s.connection_manager).0 }

      next : Bool → Step
      next b =
          if b
          then (record emptied { awaiting = pub_sub_shutdown }, shuts_pub_sub ∷ [])
          else quit_next (redis_clients deps) emptied

      by_pub_sub :
          (b : Bool)
          → deps.redis_pub_sub ≡ b
          → Advances deps sleep_over 1 (
            (next b).0,
            map on_connections (close_all 1001 message s.connection_manager).1 ++ (next b).1,
          )
      by_pub_sub true e =
          ended-Advances 1001 message (Dict.values s.connection_manager.connections) (next true)
            (going, refl) (omega (arith, ap to_nat e)) refl refl (omega arith, omega arith)
      by_pub_sub false e =
          let i = quit_next-Advances (redis_clients deps) emptied going in
          ended-Advances 1001 message (Dict.values s.connection_manager.connections) (next false)
            i.running (omega (arith, ap to_nat e, i.fewer)) (omega (arith, i.exit_count))
            i.quit_rest
            (Rises-weaken 3 5 (reached (next false).0.awaiting) (next false).1 (omega arith)
              i.rising)

  pub on_settled-Advances :
      (s : Shutdown) → IsRunning s → Advances deps s.awaiting 1 (on_settled deps s)
  unfolding on_settled
  on_settled-Advances s i = settled s.awaiting refl
    where
      settles_at : Awaiting → Step
      settles_at no_signal = (s, [])
      settles_at import_uws = after_import deps s
      settles_at sleep_over = close_connections deps s
      settles_at pub_sub_shutdown = quit_next (redis_clients deps) s
      settles_at (quit_of rest) = quit_next rest s
      settles_at exited = (s, [])

      settled : (a : Awaiting) → s.awaiting ≡ a → Advances deps a 1 (settles_at a)
      settled no_signal e = absurd (ground (arith, sym (ap begun e) ∙ i.1))
      settled import_uws e = after_import-Advances s i.0
      settled sleep_over e = close_connections-Advances s i.0
      settled pub_sub_shutdown e =
          let next = quit_next-Advances (redis_clients deps) s i.0 in
          record {
            running = next.running;
            fewer = next.fewer;
            exit_count = next.exit_count;
            quit_rest = next.quit_rest;
            rising =
                Rises-weaken 4 5 (reached (quit_next (redis_clients deps) s).0.awaiting)
                  (quit_next (redis_clients deps) s).1 (omega arith) next.rising;
          }
      settled (quit_of rest) e = quit_next-Advances rest s i.0
      settled exited e = record {
        running = i;
        fewer = ap (awaits_left deps) e ∙ omega arith;
        exit_count = sym (ap has_exited e);
        quit_rest = sym (ap (unasked deps) e);
        rising = omega (arith, ap reached e);
      }

  pub on_signal-Advances :
      (s : Shutdown) → IsRunning s → Advances deps s.awaiting 0 (on_signal deps s)
  unfolding on_signal
  on_signal-Advances s i = subst (Advances deps s.awaiting 0) (ignored s i.0) (stays s i)
    where
      ignored : (s : Shutdown) → s.is_shutting_down ≡ true → (s, []) ≡ on_signal deps s
      ignored s going = ground (arith, going)

      stays : (s : Shutdown) → IsRunning s → Advances deps s.awaiting 0 (s, [])
      stays s i = record {
        running = i;
        fewer = omega arith;
        exit_count = omega arith;
        quit_rest = refl;
        rising = omega arith;
      }
