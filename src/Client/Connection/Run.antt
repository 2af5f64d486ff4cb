-- ===== src/Client/Connection/Run.antt =====
-- client/src/LiveRelayClient.ts: what every event leaves of a client, and so any run.
use live_r.Base.{ℕ, ◌≡◌, refl, ap, Bool, true, false, List, [], ◌∷◌, Option, arith, if◌then◌else◌}
use live_r.Base.Text.{Str}
use live_r.Base.Equality.{str_eq, nat_eq}
use live_r.Base.Sets
use live_r.Protocol.Values.{Json}
use live_r.Client.{Client, ReadyState, connecting, open_state, closing, closed}
use live_r.Client.Connection.{
  ◌then◌, connect, cleanup, set_ready, opened, handshake_message, lasting_messages, dispatch_error,
  dispatch_close,
}
use live_r.Client.Connection.Events.{
  Event, opens, connects, disconnects, arrives, goes, fires, open_event, message_event, close_event,
  step, run,
}
use live_r.Client.Connection.Evolves.{
  IsSilent, Evolves, then-Evolves, if-Evolves, nothing-Evolves, connect-Evolves, cleanup-Evolves,
  set_ready-Evolves, from-Evolves,
}
use live_r.Client.Connection.Handlers.{
  handshake_message-Evolves, lasting_messages-Evolves, dispatch_error-Evolves,
  dispatch_close-Evolves, disconnect-Evolves,
}

-- A socket has opened.
abbrev pub is_open_event : Event → Bool
is_open_event (opens j) = true
is_open_event e = false

module _ {k : ℕ} where
  message_event-Evolves :
      (state : ReadyState) (j : ℕ) (msg : Option Json) (c : Client)
      → Evolves k c (message_event state j msg c)
  unfolding message_event
  message_event-Evolves open_state j msg c =
      let n = (c.sockets j).message_handlers in
      then-Evolves c (if (c.sockets j).on_message then handshake_message j msg c else (c, []))
        (lasting_messages n msg)
        (if-Evolves (c.sockets j).on_message c (handshake_message j msg c) (c, [])
          (λ e. handshake_message-Evolves j msg c (λ same i.
            ground (arith, e, i.mute.no_message, ap (λ i. (c.sockets i).on_message) same)))
          (λ e. nothing-Evolves c))
        (lasting_messages-Evolves n msg
          (if (c.sockets j).on_message then handshake_message j msg c else (c, [])).0)
  message_event-Evolves connecting j msg c = nothing-Evolves c
  message_event-Evolves closing j msg c = nothing-Evolves c
  message_event-Evolves closed j msg c = nothing-Evolves c

  -- The socket is closed, then there may be an error, then the close handlers run.
  gone-Evolves :
      (failed : Bool) (j code : ℕ) (reason : Str) (c : Client)
      → let gone = set_ready j closed c in
        Evolves k c (dispatch_close j code reason (if failed then dispatch_error j gone else gone))
  gone-Evolves true j code reason c =
      let gone = set_ready j closed c in
      then-Evolves c (dispatch_error j gone, []) (dispatch_close j code reason)
        (then-Evolves c (gone, []) (λ d. (dispatch_error j d, [])) (set_ready-Evolves j closed c)
          (dispatch_error-Evolves j gone))
        (dispatch_close-Evolves j code reason (dispatch_error j gone))
  gone-Evolves false j code reason c =
      let gone = set_ready j closed c in
      then-Evolves c (gone, []) (dispatch_close j code reason) (set_ready-Evolves j closed c)
        (dispatch_close-Evolves j code reason gone)

  close_event-Evolves :
      (state : ReadyState) (j : ℕ) (failed : Bool) (code : ℕ) (reason : Str) (c : Client)
      → Evolves k c (close_event state j failed code reason c)
  unfolding close_event
  close_event-Evolves closed j failed code reason c = nothing-Evolves c
  close_event-Evolves connecting j failed code reason c = gone-Evolves true j code reason c
  close_event-Evolves open_state j failed code reason c = gone-Evolves failed j code reason c
  close_event-Evolves closing j failed code reason c = gone-Evolves failed j code reason c

  fire-Evolves : (id : ℕ) (c : Client) → Evolves k c (step (fires id) c)
  unfolding step
  fire-Evolves id c =
      let c' = record c { timers = Sets.remove id c.timers } in
      if-Evolves (Sets.has id c.timers) c (connect c') (c, [])
        (λ e. from-Evolves c c' refl refl refl refl (connect-Evolves c')) (λ e. nothing-Evolves c)

  -- Every event but the opening of a socket.
  pub step-Evolves : (e : Event) (c : Client) → is_open_event e ≡ false → Evolves k c (step e c)
  unfolding step
  step-Evolves connects c other = connect-Evolves c
  step-Evolves disconnects c other = disconnect-Evolves c
  step-Evolves (opens j) c other = absurd (ground (arith, other))
  step-Evolves (arrives j msg) c other = message_event-Evolves (c.sockets j).ready_state j msg c
  step-Evolves (goes j failed code reason) c other =
      close_event-Evolves (c.sockets j).ready_state j failed code reason c
  step-Evolves (fires id) c other = fire-Evolves id c

  open_event-IsSilent :
      (state : ReadyState) (j : ℕ) (c : Client) → IsSilent k c → IsSilent k (open_event state j c)
  unfolding open_event opened
  open_event-IsSilent connecting j c i =
      let ready = set_ready j open_state c in
      let ready_silent = (set_ready-Evolves j open_state c).silent i in
      let started = record ready { connected = true; reconnect_attempts = 0 } in
      elim (c.sockets j).on_open
        as (λ (b : Bool). IsSilent k (if b then cleanup j started else ready)) [
          | true ↦
              (cleanup-Evolves j started).silent
                (record { made = ready_silent.made; mute = ready_silent.mute })
          | false ↦ ready_silent
        ]
  open_event-IsSilent open_state j c i = i
  open_event-IsSilent closing j c i = i
  open_event-IsSilent closed j c i = i

  step-IsSilent : (e : Event) (c : Client) → IsSilent k c → IsSilent k (step e c).0
  unfolding step
  step-IsSilent connects c i = (step-Evolves connects c refl).silent i
  step-IsSilent disconnects c i = (step-Evolves disconnects c refl).silent i
  step-IsSilent (opens j) c i = open_event-IsSilent (c.sockets j).ready_state j c i
  step-IsSilent (arrives j msg) c i = (step-Evolves (arrives j msg) c refl).silent i
  step-IsSilent (goes j failed code reason) c i =
      (step-Evolves (goes j failed code reason) c refl).silent i
  step-IsSilent (fires id) c i = (step-Evolves (fires id) c refl).silent i

  pub run-IsSilent : (es : List Event) (c : Client) → IsSilent k c → IsSilent k (run es c).0
  unfolding run
  run-IsSilent [] c i = i
  run-IsSilent (e ∷ es) c i = run-IsSilent es (step e c).0 (step-IsSilent e c i)
