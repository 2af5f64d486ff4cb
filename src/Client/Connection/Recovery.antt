-- ===== src/Client/Connection/Recovery.antt =====
-- client/src/LiveRelayClient.ts: a client that loses its connection and gets it back.
use live_r.Base.{
  ℕ, ◌+◌, ◌-◌, ◌*◌, ◌^◌, min, ap, ◌∙◌, ◌≤◌, ◌<◌, ◌≡◌, refl, subst, Bool, true, List, [], ◌∷◌, ◌++◌,
  arith, suc, zero,
}
use live_r.Base.Text.{Str}
use live_r.Base.Equality.{str_eq, nat_eq}
use live_r.Client.{Client}
use live_r.Client.Connection.{is_connected}
use live_r.Client.Connection.Events.{Event, opens, goes, fires, step, run}
use live_r.Client.Connection.Promises.{IsOpen}
use live_r.Client.{LiveRelayConfig}
use live_r.Client.Connection.{capped_delay}
use live_r.Base.{◌≤◌, ◌<◌}
use live_r.Base.{length}
use live_r.Client.Connection.Promises.{IsOpen-is_connected}
use live_r.Client.Connection.Delays.{uncapped_double}
use live_r.Client.Connection.Closes.{open_goes, trying_goes, trying_opens, waiting_fires}
use live_r.Client.Connection.Waiting.{delays_in, delays_in-append, IsWaiting}

-- What a failed attempt gives: a code and a reason.
abbrev pub Failure : Type 0
Failure = ℕ × Str

-- Each timer fires, and its socket fails, but for the last, which opens.
abbrev pub outage : List Failure → ℕ → ℕ → List Event
outage [] id k = fires id ∷ opens k ∷ []
outage (f ∷ fs) id k = fires id ∷ goes k true f.0 f.1 ∷ outage fs (id + 1) (k + 1)

-- Delays that double from one to the next, none above 30000.
abbrev pub doubling : ℕ → ℕ → List ℕ
doubling delay zero = []
doubling delay (suc m) = min delay 30000 ∷ doubling (2 * delay) m

-- The delays of the attempts behind the `n`th.
abbrev backoff : LiveRelayConfig → ℕ → ℕ → List ℕ
backoff options n zero = []
backoff options n (suc m) = capped_delay options (n + 1) ∷ backoff options (n + 1) m

delays_in-run :
    (e : Event) (es : List Event) (c : Client)
    → delays_in (run (e ∷ es) c).1 ≡ delays_in (step e c).1 ++ delays_in (run es (step e c).0).1
unfolding run
delays_in-run e es c = delays_in-append (step e c).1 (run es (step e c).0).1

waits_out :
    (fs : List Failure) (id k n : ℕ) (options : LiveRelayConfig) (c : Client)
    → IsWaiting id k n options c
    → options.auto_reconnect ≡ true
    → n + length fs ≤ options.max_reconnect_attempts
    → let r = run (outage fs id k) c in
      IsOpen (k + length fs) r.0 × (delays_in r.1 ≡ backoff options n (length fs))
unfolding run
waits_out [] id k n options c i auto le =
    let fired = waiting_fires id k n options c i in
    let r = run (outage [] id k) c in
    (
      subst (λ m. IsOpen m r.0) (omega arith) (trying_opens fired.0),
      rw (delays_in-run (fires id) (opens k ∷ []) c, fired.1) refl,
    )
waits_out (f ∷ fs) id k n options c i auto le =
    let fired = waiting_fires id k n options c i in
    let d = (step (fires id) c).0 in
    let failed = trying_goes fired.0 f.0 f.1 auto (omega (arith, le)) in
    let rest =
      waits_out fs (id + 1) (k + 1) (n + 1) options (step (goes k true f.0 f.1) d).0 failed.0 auto
        (omega (arith, le)) in
    let r = run (outage (f ∷ fs) id k) c in
    (
      subst (λ m. IsOpen m r.0) (omega arith) rest.0,
      rw
          (
            delays_in-run (fires id) (goes k true f.0 f.1 ∷ outage fs (id + 1) (k + 1)) c,
            delays_in-run (goes k true f.0 f.1) (outage fs (id + 1) (k + 1)) d,
            fired.1,
            failed.1,
            rest.1,
          )
          refl,
    )

backoff-doubling :
    (options : LiveRelayConfig) (n m : ℕ)
    → backoff options n m ≡ doubling (options.reconnect_delay * 2 ^ n) m
unfolding capped_delay
backoff-doubling options n zero = refl
backoff-doubling options n (suc m) =
    let next : n + 1 ≡ suc n = omega arith in
    let place : n + 1 - 1 ≡ n = omega arith in
    rw (place, next, backoff-doubling options (suc n) m, uncapped_double options.reconnect_delay n)
      refl

backoff_first :
    (options : LiveRelayConfig) (m : ℕ) → backoff options 0 m ≡ doubling options.reconnect_delay m
backoff_first options m =
    let e : options.reconnect_delay * 1 ≡ options.reconnect_delay = omega arith in
    backoff-doubling options 0 m ∙ ap (λ d. doubling d m) e

-- A connection that is lost, for whatever reason, while the client may reconnect by itself
-- (`autoReconnect`, which `disconnect` takes away), is made again by the client itself after any
-- number of failed attempts below the maximum, as soon as one succeeds: it is connected, has all
-- its attempts again, and has waited before the attempts for the configured delay, twice that, and
-- so on, but never above 30000.
pub recovers :
    (k : ℕ) (failed : Bool) (code : ℕ) (reason : Str) (fs : List Failure) (c : Client)
    → IsOpen k c
    → c.config.auto_reconnect ≡ true
    → length fs < c.config.max_reconnect_attempts
    → let r = run (goes k failed code reason ∷ outage fs c.next_timer c.next_socket) c in
      IsOpen (c.next_socket + length fs) r.0
      × (is_connected r.0 ≡ true)
      × (delays_in r.1 ≡ doubling c.config.reconnect_delay (suc (length fs)))
unfolding run
recovers k failed code reason fs c i auto left =
    let e = goes k failed code reason in
    let es = outage fs c.next_timer c.next_socket in
    let lost = open_goes k failed code reason c i auto (omega (arith, left)) in
    let back =
      waits_out fs c.next_timer c.next_socket 1 c.config (step e c).0 lost.0 auto
        (omega (arith, left)) in
    (
      back.0,
      IsOpen-is_connected (c.next_socket + length fs) (run (e ∷ es) c).0 back.0,
      rw (delays_in-run e es c, lost.1, back.1) refl ∙ backoff_first c.config (suc (length fs)),
    )
