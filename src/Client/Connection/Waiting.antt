-- ===== src/Client/Connection/Waiting.antt =====
-- client/src/LiveRelayClient.ts: a handler of closes schedules the next attempt.
use live_r.Base.{ℕ, ◌+◌, ◌<◌, ◌≡◌, refl, sym, ◌∙◌, ap, true, List, [], ◌∷◌, ◌++◌, some, arith}
use live_r.Base.Text.{Str}
use live_r.Base.Equality.{str_eq, nat_eq}
use live_r.Base.Sets
use live_r.Client.{Client, ClientEffect, emits}
use live_r.Client.Connection.{
  Step, attempt_reconnect, close_handler, lasting_closes, fresh_socket, schedule, may_reconnect,
  reconnect_if_may,
}
use live_r.Client.{LiveRelayConfig, calls, starts_timer}
use live_r.Client.Emitter.{Call}
use live_r.Client.Connection.{capped_delay}
use live_r.Base.{map, ◌<◌}
use live_r.Base.Equality.{eq_iff}

-- Delays of the timers that are started.
abbrev pub delays_in : List ClientEffect → List ℕ
delays_in [] = []
delays_in (starts_timer id delay ∷ es) = delay ∷ delays_in es
delays_in (e ∷ es) = delays_in es

pub delays_in-append :
    (es fs : List ClientEffect) → delays_in (es ++ fs) ≡ delays_in es ++ delays_in fs
delays_in-append [] fs = refl
delays_in-append (starts_timer id delay ∷ es) fs = ap (λ ds. delay ∷ ds) (delays_in-append es fs)
delays_in-append (e ∷ es) fs = delays_in-append es fs

calls_delays :
    (cs : List Call) (es : List ClientEffect) → delays_in (map calls cs ++ es) ≡ delays_in es
calls_delays [] es = refl
calls_delays (x ∷ cs) es = calls_delays cs es

-- A client that waits for the timer `id`, the next socket being `k`.
pub record IsWaiting (id k n : ℕ) (options : LiveRelayConfig) (c : Client) : Type 0 where
  pub timer : Sets.has id c.timers ≡ true
  pub next_timer : c.next_timer ≡ id + 1
  pub next_socket : c.next_socket ≡ k
  pub attempts : c.reconnect_attempts ≡ n
  pub config : c.config ≡ options

-- A client whose connection to be is the socket `k`.
pub record IsTrying (id k n : ℕ) (options : LiveRelayConfig) (c : Client) : Type 0 where
  pub own : c.ws ≡ some k
  pub fresh : c.sockets k ≡ fresh_socket
  pub next_timer : c.next_timer ≡ id
  pub next_socket : c.next_socket ≡ k + 1
  pub attempts : c.reconnect_attempts ≡ n
  pub config : c.config ≡ options

-- A client whose next timer is `id` and whose next socket is `k`, after `n` attempts.
pub record IsAt (id k n : ℕ) (options : LiveRelayConfig) (c : Client) : Type 0 where
  pub next_timer : c.next_timer ≡ id
  pub next_socket : c.next_socket ≡ k
  pub attempts : c.reconnect_attempts ≡ n
  pub config : c.config ≡ options

-- The next attempt is scheduled.
abbrev pub IsRetried : ℕ → ℕ → ℕ → LiveRelayConfig → Step → Type 0
IsRetried id k n options r =
    IsWaiting id k (n + 1) options r.0 × (delays_in r.1 ≡ capped_delay options (n + 1) ∷ [])

module _ {id k n : ℕ} {options : LiveRelayConfig} (auto : options.auto_reconnect ≡ true)
    (left : n < options.max_reconnect_attempts) (code : ℕ) (reason : Str) where
  -- A handler of closes schedules it.
  close_handler-IsRetried :
      (c : Client) → IsAt id k n options c → IsRetried id k n options (close_handler code reason c)
  unfolding close_handler reconnect_if_may attempt_reconnect schedule emits
  close_handler-IsRetried c i =
      let t = c.next_timer in
      let may : may_reconnect c ≡ true = ground (
        arith,
        auto,
        left,
        i.attempts,
        ap (λ (o : LiveRelayConfig). o.auto_reconnect) i.config,
        ap (λ (o : LiveRelayConfig). o.max_reconnect_attempts) i.config,
      ) in
      rw may (
        record {
          timer =
              ap (λ m. Sets.has m (Sets.add t c.timers)) (sym i.next_timer)
              ∙ ground (arith, Sets.has-add t t c.timers, eq_iff t t);
          next_timer = ap (λ m. m + 1) i.next_timer;
          next_socket = i.next_socket;
          attempts = ap (λ m. m + 1) i.attempts;
          config = i.config;
        },
        rw (i.config, i.attempts) (simp calls_delays),
      )

  -- The one handler that a socket has does.
  pub one_close-IsRetried :
      (c : Client)
      → IsAt id k n options c
      → IsRetried id k n options (lasting_closes 1 code reason c)
  unfolding lasting_closes
  one_close-IsRetried c i =
      let retried = close_handler-IsRetried c i in
      (
        retried.0,
        delays_in-append (close_handler code reason c).1 [] ∙ ap (λ ds. ds ++ []) retried.1,
      )
