-- ===== src/Client/Connection/Closes.antt =====
-- client/src/LiveRelayClient.ts: what follows when the socket of a client goes: the next attempt.
use live_r.Base.{
  ℕ, ◌+◌, ◌<◌, ◌≡◌, refl, sym, subst, ◌∙◌, ap, Bool, true, false, [], some, arith, if◌then◌else◌,
}
use live_r.Base.Text.{Str}
use live_r.Base.Equality.{str_eq, nat_eq}
use live_r.Client.{Client, Socket, rejected, closed, with_socket}
use live_r.Client.Connection.{
  ◌then◌, connect, cleanup, settle, set_ready, lasting_closes, refused, dispatch_error,
  dispatch_close, fresh_socket, with_handlers, without_handshake,
}
use live_r.Client.Connection.Events.{opens, goes, fires, close_event, step}
use live_r.Client.Connection.Promises.{IsOpen, nat_refl, open_event-IsOpen, opened_socket}
use live_r.Client.{LiveRelayConfig}
use live_r.Base.{◌<◌}
use live_r.Client.Connection.Waiting.{
  delays_in, IsWaiting, IsTrying, IsRetried, one_close-IsRetried,
}

at_socket : (j : ℕ) (s : Socket) (c : Client) → (with_socket j s c).sockets j ≡ s
at_socket j s c = rw (nat_refl j) refl

dispatch_error_off : (j : ℕ) (c : Client) → (c.sockets j).on_error ≡ false → dispatch_error j c ≡ c
unfolding dispatch_error
dispatch_error_off j c off = rw off refl

dispatch_error_on :
    (j : ℕ) (c : Client) → (c.sockets j).on_error ≡ true → dispatch_error j c ≡ refused j c
unfolding dispatch_error
dispatch_error_on j c on = rw on refl

dispatch_close_one :
    (j code : ℕ) (reason : Str) (c : Client)
    → (c.sockets j).on_close ≡ false
    → (c.sockets j).close_handlers ≡ 1
    → dispatch_close j code reason c ≡ lasting_closes 1 code reason c
unfolding dispatch_close
dispatch_close_one j code reason c off one = rw (off, one) refl

-- The close event of an open socket reaches its one handler.
open_closes :
    (k : ℕ) (failed : Bool) (code : ℕ) (reason : Str) (c : Client)
    → IsOpen k c
    → step (goes k failed code reason) c ≡ lasting_closes 1 code reason (set_ready k closed c)
unfolding step close_event
open_closes k failed code reason c i =
    let gone = set_ready k closed c in
    let gone_socket : gone.sockets k ≡ record opened_socket { ready_state = closed } =
      at_socket k (record (c.sockets k) { ready_state = closed }) c
      ∙ ap (λ (s : Socket). record s { ready_state = closed }) i.socket in
    let off : (gone.sockets k).on_error ≡ false = ap (λ (s : Socket). s.on_error) gone_socket in
    let reached =
      dispatch_close_one k code reason gone (ap (λ (s : Socket). s.on_close) gone_socket)
        (ap (λ (s : Socket). s.close_handlers) gone_socket) in
    ap (λ state. close_event state k failed code reason c)
      (ap (λ (s : Socket). s.ready_state) i.socket)
    ∙ (elim failed
        as (λ (b : Bool).
          dispatch_close k code reason (if b then dispatch_error k gone else gone)
          ≡ lasting_closes 1 code reason gone) [
            | true ↦ ap (dispatch_close k code reason) (dispatch_error_off k gone off) ∙ reached
            | false ↦ reached
          ])

refused_call : ℕ → Client → Client
refused_call k c =
    settle k rejected (with_socket k (with_handlers (without_handshake (c.sockets k))) c)

refused_own : (k : ℕ) (c : Client) → c.ws ≡ some k → refused k c ≡ refused_call k c
unfolding refused cleanup refused_call
refused_own k c own = rw (own, nat_refl k) refl

refused_socket :
    (k : ℕ) (c : Client)
    → let s = (refused_call k c).sockets k in
      (s.on_close ≡ false) × (s.close_handlers ≡ (c.sockets k).close_handlers + 1)
unfolding refused_call settle
refused_socket k c = rw (nat_refl k) (refl, refl)

-- The error of a socket that never opened leaves it with one handler of closes.
trying_closes :
    (k code : ℕ) (reason : Str) (c : Client)
    → c.ws ≡ some k
    → c.sockets k ≡ fresh_socket
    → step (goes k true code reason) c
      ≡ lasting_closes 1 code reason (refused_call k (set_ready k closed c))
unfolding step close_event
trying_closes k code reason c own fresh =
    let gone = set_ready k closed c in
    let gone_socket : gone.sockets k ≡ record fresh_socket { ready_state = closed } =
      at_socket k (record (c.sockets k) { ready_state = closed }) c
      ∙ ap (λ (s : Socket). record s { ready_state = closed }) fresh in
    let call = refused_socket k gone in
    ap (λ state. close_event state k true code reason c) (ap (λ (s : Socket). s.ready_state) fresh)
    ∙ (ap (dispatch_close k code reason) (
          dispatch_error_on k gone (ap (λ (s : Socket). s.on_error) gone_socket)
          ∙ refused_own k gone own)
        ∙ dispatch_close_one k code reason (refused_call k gone) call.0
            (call.1 ∙ ap (λ (s : Socket). s.close_handlers + 1) gone_socket))

pub waiting_fires :
    (id k n : ℕ) (options : LiveRelayConfig) (c : Client)
    → IsWaiting id k n options c
    → let r = step (fires id) c in IsTrying (id + 1) k n options r.0 × (delays_in r.1 ≡ [])
unfolding step connect
waiting_fires id k n options c i = rw i.timer (
  record {
    own = ap some i.next_socket;
    fresh = rw (i.next_socket, nat_refl k) refl;
    next_timer = i.next_timer;
    next_socket = ap (λ m. m + 1) i.next_socket;
    attempts = i.attempts;
    config = i.config;
  },
  refl,
)

-- The close event of an open socket.
pub open_goes :
    (k : ℕ) (failed : Bool) (code : ℕ) (reason : Str) (c : Client)
    → IsOpen k c
    → c.config.auto_reconnect ≡ true
    → 0 < c.config.max_reconnect_attempts
    → IsRetried c.next_timer c.next_socket 0 c.config (step (goes k failed code reason) c)
open_goes k failed code reason c i auto left =
    subst (IsRetried c.next_timer c.next_socket 0 c.config)
      (sym (open_closes k failed code reason c i))
      (one_close-IsRetried auto left code reason (set_ready k closed c)
        (record { next_timer = refl; next_socket = refl; attempts = i.fresh_count; config = refl }))

module _ {id k n : ℕ} {options : LiveRelayConfig} {c : Client} (i : IsTrying id k n options c) where
  -- The failure of a socket that never opened.
  pub trying_goes :
      (code : ℕ) (reason : Str)
      → options.auto_reconnect ≡ true
      → n < options.max_reconnect_attempts
      → IsRetried id (k + 1) n options (step (goes k true code reason) c)
  unfolding refused_call settle
  trying_goes code reason auto left =
      subst (IsRetried id (k + 1) n options) (sym (trying_closes k code reason c i.own i.fresh)) (
        one_close-IsRetried auto left code reason (refused_call k (set_ready k closed c)) (record {
          next_timer = i.next_timer;
          next_socket = i.next_socket;
          attempts = i.attempts;
          config = i.config;
        }))

  pub trying_opens : IsOpen k (step (opens k) c).0
  unfolding step
  trying_opens = open_event-IsOpen k c i.own (omega (arith, i.next_socket)) i.fresh
