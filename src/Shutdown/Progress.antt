-- ===== src/Shutdown/Progress.antt =====
-- src/utils/gracefulShutdown.ts: how a shutdown goes on, whatever happens meanwhile.
use live_r.Base.{
  ℕ, ◌+◌, ◌-◌, ◌≤◌, ◌≡◌, refl, sym, subst, ◌∙◌, ap, true, List, [], ◌∷◌, ◌++◌, Option, none, some,
  suc, arith,
}
use live_r.Connections.{ConnectionManager}
use live_r.Shutdown.{
  ShutdownDependencies, Awaiting, no_signal, import_uws, sleep_over, pub_sub_shutdown, quit_of,
  exited, Shutdown, Step, redis_clients, notify_clients, on_signal, on_settled, set_up,
}
use live_r.Shutdown.Trace.{
  ShutdownEvent, signals, settles, changes, step, run, settled_in, awaits_left, exits_in, quits_in,
  Rises, reached, unasked, has_exited, begun, awaits_of, imports,
}
use mathlib.Core.List.{append_assoc, append-nil}
use live_r.Shutdown.Handlers.{
  IsRunning, Advances, notify_clients-Advances, on_settled-Advances, on_signal-Advances,
}
use live_r.Shutdown.Deeds.{deeds, whole, begins-Does, run-Does, finished-Does}
use live_r.Shutdown.Effects.{exits_in-append, quits_in-append, append-Rises}

module _ (deps : ShutdownDependencies) where
  then-Advances :
      (a : Awaiting) (n m k : ℕ) (r q : Step)
      → n + m ≡ k
      → Advances deps a n r
      → Advances deps r.0.awaiting m q
      → Advances deps a k (q.0, r.1 ++ q.1)
  then-Advances a n m k r q sum i j = record {
    running = j.running;
    fewer = omega (arith, i.fewer, j.fewer, sum);
    exit_count = omega (arith, i.exit_count, j.exit_count, exits_in-append r.1 q.1);
    quit_rest =
        i.quit_rest
        ∙ ap (λ cs. quits_in r.1 ++ cs) j.quit_rest
        ∙ sym (append_assoc (quits_in r.1) (quits_in q.1) (unasked deps q.0.awaiting))
        ∙ ap (λ cs. cs ++ unasked deps q.0.awaiting) (sym (quits_in-append r.1 q.1));
    rising =
        append-Rises (reached a) (reached r.0.awaiting) (reached q.0.awaiting) r.1 q.1 i.rising
          j.rising;
  }

  run-Advances :
      (es : List ShutdownEvent) (s : Shutdown)
      → IsRunning s
      → Advances deps s.awaiting (settled_in es) (run deps es s)
  unfolding run step
  run-Advances [] s i = record {
    running = i;
    fewer = omega arith;
    exit_count = omega arith;
    quit_rest = refl;
    rising = omega arith;
  }
  run-Advances (signals ∷ es) s i =
      let first = on_signal-Advances deps s i in
      then-Advances s.awaiting 0 (settled_in es) (settled_in es) (on_signal deps s)
        (run deps es (on_signal deps s).0) (omega arith) first
        (run-Advances es (on_signal deps s).0 first.running)
  run-Advances (settles ∷ es) s i =
      let first = on_settled-Advances deps s i in
      then-Advances s.awaiting 1 (settled_in es) (suc (settled_in es)) (on_settled deps s)
        (run deps es (on_settled deps s).0) (omega arith) first
        (run-Advances es (on_settled deps s).0 first.running)
  run-Advances (changes m ∷ es) s i =
      let rest = run-Advances es (record s { connection_manager = m }) i in
      record {
        running = rest.running;
        fewer = rest.fewer;
        exit_count = rest.exit_count;
        quit_rest = rest.quit_rest;
        rising = rest.rising;
      }

  finished : (a : Awaiting) → begun a ≡ true → awaits_left deps a ≡ 0 → a ≡ exited
  finished no_signal b e = absurd (ground (arith, b))
  finished import_uws b e = absurd (omega (arith, e))
  finished sleep_over b e = absurd (omega (arith, e))
  finished pub_sub_shutdown b e = absurd (omega (arith, e))
  finished (quit_of rest) b e = absurd (omega (arith, e))
  finished exited b e = refl

  completed :
      (k : ℕ) (r : Step)
      → awaits_left deps import_uws ≤ k
      → Advances deps import_uws k r
      → (r.0.awaiting ≡ exited)
        × (exits_in r.1 ≡ 1)
        × (quits_in r.1 ≡ redis_clients deps)
        × Rises 0 6 r.1
  completed k r enough i =
      let e = finished r.0.awaiting i.running.1 (omega (arith, i.fewer, enough)) in
      (
        e,
        omega (arith, i.exit_count, ap has_exited e),
        sym (i.quit_rest ∙ ap (λ a. quits_in r.1 ++ unasked deps a) e ∙ append-nil (quits_in r.1)),
        subst (λ a. Rises 0 (reached a) r.1) e i.rising,
      )

  -- The awaited import, or what comes at once without a listening socket.
  begins :
      (s : Shutdown) (l : Option ℕ)
      → s.is_shutting_down ≡ true
      → Advances deps import_uws (1 - imports l) (elim l [
        | none ↦ notify_clients s
        | some listener ↦ (record s { awaiting = import_uws }, [])
      ])
  begins s none going = notify_clients-Advances deps s going
  begins s (some listener) going = record {
    running = (going, refl);
    fewer = omega arith;
    exit_count = refl;
    quit_rest = refl;
    rising = omega arith;
  }

-- After a signal the server exits, once, as soon as what it awaits has been settled as often as it
-- awaits something, whether resolved or rejected, and whatever signals come and whatever happens to
-- the connections meanwhile. Beside telling and ending connections it has done this by then, each
-- once and in this order, and nothing else: the listening socket, if there is one, is closed, two
-- seconds pass, the pub/sub, if there is one, is shut down, each connection to Redis is asked to
-- quit, and the process exits. Connections are told only behind the closing of the listening socket
-- and before the two seconds, and ended only behind these and before the pub/sub is shut down.
pub shutdown_completes :
    (deps : ShutdownDependencies) (manager : ConnectionManager) (es : List ShutdownEvent)
    → awaits_of deps ≤ settled_in es
    → let r = run deps (signals ∷ es) (set_up manager) in
      (r.0.awaiting ≡ exited)
      × (exits_in r.1 ≡ 1)
      × (quits_in r.1 ≡ redis_clients deps)
      × (deeds r.1 ≡ whole deps)
      × Rises 0 6 r.1
unfolding run step on_signal set_up
shutdown_completes deps manager es enough =
    let begun = record (set_up manager) { is_shutting_down = true } in
    let l = deps.listen_socket in
    let first : Step = elim l [
      | none ↦ notify_clients begun
      | some listener ↦ (record begun { awaiting = import_uws }, [])
    ] in
    let started = begins deps begun l refl in
    let rest = run deps es first.0 in
    let k = 1 - imports l + settled_in es in
    let done =
      completed deps k (rest.0, first.1 ++ rest.1) (omega (arith, enough))
        (then-Advances deps import_uws (1 - imports l) (settled_in es) k first rest refl started
          (run-Advances deps es first.0 started.running)) in
    let all_done =
      finished-Does deps first rest (begins-Does deps begun l refl)
        (run-Does deps es first.0 started.running) done.0 in
    (done.0, done.1, done.2, all_done, done.3)
