-- ===== src/Client/Connection/Handlers.antt =====
-- client/src/LiveRelayClient.ts: how the handlers of messages and of closes change a client.
use live_r.Base.{
  ℕ, ◌+◌, ◌<◌, ◌≡◌, refl, ap, false, [], ◌∷◌, Option, none, some, arith, suc, zero, Bool-cases, inl,
  inr, if◌then◌else◌,
}
use live_r.Base.Text.{Str, codes}
use live_r.Base.Equality.{str_eq, nat_eq, ◌==◌}
use live_r.Base.Sets
use live_r.Protocol.Values.{Json}
use live_r.Client.{
  Client, resolved, stops_timer, closes_socket, emits, type_of, handle_server_message,
}
use live_r.Client.Connection.{
  Step, ◌then◌, settle, set_ready, handshake_message, lasting_messages, attempt_reconnect,
  close_handler, lasting_closes, refused, dispatch_error, dispatch_close, stop_timer, drop_socket,
  disconnect, close_state, schedule, reconnect_note, close_note, may_reconnect, reconnect_if_may,
}
use live_r.Client.Connection.Emits.{timers_in-append, emits-IsQuiet, handle_server_message-IsQuiet}
use live_r.Client.Connection.Evolves.{
  IsSilent, Evolves, then-Evolves, if-Evolves, nothing-Evolves, quiet-Evolves, then_settle-Evolves,
  refused-Evolves, set_ready-Evolves, from-Evolves,
}

module _ {k : ℕ} where
  pub handshake_message-Evolves :
      (j : ℕ) (msg : Option Json) (c : Client)
      → (j ≡ k → IsSilent k c → ⊥)
      → Evolves k c (handshake_message j msg c)
  unfolding handshake_message
  handshake_message-Evolves j none c has = nothing-Evolves c
  handshake_message-Evolves j (some msg) c has =
      then-Evolves c (first (type_of msg)) (handle_server_message msg) (first-Evolves (type_of msg))
        (quiet-Evolves (first (type_of msg)).0 (handle_server_message msg (first (type_of msg)).0)
          (handle_server_message-IsQuiet msg (first (type_of msg)).0))
    where
      greeted : Step
      greeted = emits (codes "connected") msg none c then λ c'. (settle j resolved c', [])

      first : Option Str → Step
      first none = (c, [])
      first (some kind) = if kind == codes "welcome" then greeted else (c, [])

      first-Evolves : (kind : Option Str) → Evolves k c (first kind)
      first-Evolves none = nothing-Evolves c
      first-Evolves (some kind) =
          if-Evolves (kind == codes "welcome") c greeted (c, [])
            (λ e. then_settle-Evolves j resolved c (emits (codes "connected") msg none c) has (
              quiet-Evolves c (emits (codes "connected") msg none c)
                (emits-IsQuiet (codes "connected") msg none c)))
            (λ e. nothing-Evolves c)

  pub lasting_messages-Evolves :
      (n : ℕ) (msg : Option Json) (c : Client) → Evolves k c (lasting_messages n msg c)
  unfolding lasting_messages
  lasting_messages-Evolves n none c = nothing-Evolves c
  lasting_messages-Evolves zero (some msg) c = nothing-Evolves c
  lasting_messages-Evolves (suc n) (some msg) c =
      then-Evolves c (handle_server_message msg c) (lasting_messages n (some msg))
        (quiet-Evolves c (handle_server_message msg c) (handle_server_message-IsQuiet msg c))
        (lasting_messages-Evolves n (some msg) (handle_server_message msg c).0)

  pub attempt_reconnect-Evolves :
      (c : Client)
      → c.reconnect_attempts < c.config.max_reconnect_attempts
      → Evolves k c (attempt_reconnect c)
  unfolding attempt_reconnect schedule emits
  attempt_reconnect-Evolves c free =
      let attempt = c.reconnect_attempts + 1 in
      let c' = record c { reconnect_attempts = attempt } in
      let noted = emits-IsQuiet (codes "reconnecting") (reconnect_note c.config attempt) none c' in
      let told = emits (codes "reconnecting") (reconnect_note c.config attempt) none c' in
      record {
        silent = λ i. record { made = i.made; mute = i.mute };
        max_same = refl;
        capped = λ le. omega (arith, free);
        counted = omega (arith, noted.untimed, timers_in-append told.1 (schedule told.0).1);
      }

  pub reconnect_if_may-Evolves : (c : Client) → Evolves k c (reconnect_if_may c)
  unfolding reconnect_if_may
  reconnect_if_may-Evolves c =
      if-Evolves (may_reconnect c) c (attempt_reconnect c) (c, [])
        (λ e. attempt_reconnect-Evolves c (ground (arith, e))) (λ e. nothing-Evolves c)

  pub close_handler-Evolves :
      (code : ℕ) (reason : Str) (c : Client) → Evolves k c (close_handler code reason c)
  unfolding close_handler emits
  close_handler-Evolves code reason c =
      let c' = record c { connected = false } in
      let told = emits (codes "disconnected") (close_note code reason) none c' in
      let quiet = emits-IsQuiet (codes "disconnected") (close_note code reason) none c' in
      then-Evolves c told reconnect_if_may
        (record {
          silent = λ i. record { made = i.made; mute = i.mute };
          max_same = refl;
          capped = λ le. le;
          counted = omega (arith, quiet.untimed);
        })
        (reconnect_if_may-Evolves told.0)

  pub lasting_closes-Evolves :
      (n code : ℕ) (reason : Str) (c : Client) → Evolves k c (lasting_closes n code reason c)
  unfolding lasting_closes
  lasting_closes-Evolves zero code reason c = nothing-Evolves c
  lasting_closes-Evolves (suc n) code reason c =
      then-Evolves c (close_handler code reason c) (lasting_closes n code reason)
        (close_handler-Evolves code reason c)
        (lasting_closes-Evolves n code reason (close_handler code reason c).0)

  pub dispatch_error-Evolves : (j : ℕ) (c : Client) → Evolves k c (dispatch_error j c, [])
  unfolding dispatch_error
  dispatch_error-Evolves j c = elim (Bool-cases (c.sockets j).on_error) [
    | inl e ↦ rw e (
        refused-Evolves j c
          (λ same i. ground (arith, e, i.mute.no_error, ap (λ n. (c.sockets n).on_error) same)))
    | inr e ↦ rw e (nothing-Evolves c)
  ]

  pub closed_call-Evolves :
      (j : ℕ) (c : Client) → Evolves k c ((if (c.sockets j).on_close then refused j c else c), [])
  closed_call-Evolves j c = elim (Bool-cases (c.sockets j).on_close) [
    | inl e ↦ rw e (
        refused-Evolves j c
          (λ same i. ground (arith, e, i.mute.no_close, ap (λ n. (c.sockets n).on_close) same)))
    | inr e ↦ rw e (nothing-Evolves c)
  ]

  pub dispatch_close-Evolves :
      (j code : ℕ) (reason : Str) (c : Client) → Evolves k c (dispatch_close j code reason c)
  unfolding dispatch_close
  dispatch_close-Evolves j code reason c =
      let c' = if (c.sockets j).on_close then refused j c else c in
      let n = (c.sockets j).close_handlers in
      then-Evolves c (c', []) (lasting_closes n code reason) (closed_call-Evolves j c)
        (lasting_closes-Evolves n code reason c')

  pub stop_timer-Evolves : (c : Client) → Evolves k c (stop_timer c)
  unfolding stop_timer
  stop_timer-Evolves c = elim c.reconnect_timer as (λ (t : Option ℕ). Evolves k c (stopped t)) [
    | none ↦ nothing-Evolves c
    | some id ↦ record {
      silent = λ i. record { made = i.made; mute = i.mute };
      max_same = refl;
      capped = λ le. le;
      counted = omega arith;
    }
  ]
    where
      stopped : Option ℕ → Step
      stopped none = (c, [])
      stopped (some id) = (
        record c { reconnect_timer = none; timers = Sets.remove id c.timers },
        stops_timer id ∷ [],
      )

  pub drop_socket-Evolves : (c : Client) → Evolves k c (drop_socket c)
  unfolding drop_socket
  drop_socket-Evolves c = elim c.ws as (λ (ws : Option ℕ). Evolves k c (dropped ws)) [
    | none ↦ nothing-Evolves c
    | some j ↦
        let e = set_ready-Evolves j (close_state (c.sockets j).ready_state) c in
        record {
          silent = λ i. record { made = (e.silent i).made; mute = (e.silent i).mute };
          max_same = refl;
          capped = λ le. le;
          counted = omega arith;
        }
  ]
    where
      dropped : Option ℕ → Step
      dropped none = (c, [])
      dropped (some j) = (
        record (set_ready j (close_state (c.sockets j).ready_state) c) { ws = none },
        closes_socket j 1000 (codes "Client disconnect") ∷ [],
      )

  pub disconnect-Evolves : (c : Client) → Evolves k c (disconnect c)
  unfolding disconnect
  disconnect-Evolves c =
      let c' = record c { config = record c.config { auto_reconnect = false } } in
      let stopped = stop_timer c' in
      let dropped = stopped then drop_socket in
      from-Evolves c c' refl refl refl refl (
        then-Evolves c' dropped (λ d. (record d { connected = false }, []))
          (then-Evolves c' stopped drop_socket (stop_timer-Evolves c')
            (drop_socket-Evolves stopped.0))
          (from-Evolves dropped.0 (record dropped.0 { connected = false }) refl refl refl refl
            (nothing-Evolves (record dropped.0 { connected = false }))))
