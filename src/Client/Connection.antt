-- ===== src/Client/Connection.antt =====
-- client/src/LiveRelayClient.ts: connecting, closing and reconnecting, as what the client does at
-- each event of the platform. An event is dispatched to the listeners that the socket has as the
-- dispatch starts.
pub mod Events
pub mod Emits
pub mod Evolves
pub mod Handlers
pub mod Run
pub mod Promises
pub mod Retries
pub mod Delays
pub mod Waiting
pub mod Closes
pub mod Recovery
use live_r.Base.{
  ℕ, ◌+◌, ◌-◌, ◌*◌, ◌^◌, min, Bool, true, false, not, ◌&&◌, ◌||◌, List, [], ◌∷◌, ◌++◌, Option, none,
  some, ltb, nat_beq, if◌then◌else◌, suc, zero,
}
use live_r.Base.Text.{Str, codes, includes}
use live_r.Base.Equality.{str_eq, nat_eq, ◌==◌}
use live_r.Base.Decimal.{decimal}
use live_r.Base.Sets
use live_r.Protocol.Values.{Json, num, text, obj, end, field}
use live_r.Client.{
  Client, Socket, Promise, pending, resolved, rejected, ReadyState, connecting, open_state, closing,
  closed, ClientEffect, opens_socket, closes_socket, starts_timer, stops_timer, LiveRelayConfig,
  with_socket, emits, type_of, handle_server_message,
}

abbrev pub Step : Type 0
Step = Client × List ClientEffect

-- One step after another.
infixl 1 ◌then◌
abbrev pub ◌then◌ : Step → (Client → Step) → Step
(c, effects) then f = let (c', more) = f c in (c', effects ++ more)

abbrev pub fresh_socket : Socket
fresh_socket = record {
  ready_state = connecting;
  on_open = true;
  on_message = true;
  on_error = true;
  on_close = true;
  message_handlers = 0;
  close_handlers = 0;
  promise = pending;
}

-- `${url}${separator}token=${token}`
unfoldable pub ws_url : LiveRelayConfig → Str
ws_url config =
    config.url
    ++ ((if includes config.url b'?' then codes "&" else codes "?")
        ++ (codes "token=" ++ config.token))

unfoldable pub connect : Client → Step
unfolding ws_url
connect c =
    let k = c.next_socket in
    (
      record (with_socket k fresh_socket c) { ws = some k; next_socket = k + 1 },
      opens_socket k (ws_url c.config) ∷ [],
    )

-- setupMessageHandler and setupCloseHandler
abbrev pub with_handlers : Socket → Socket
with_handlers s = record s {
  message_handlers = s.message_handlers + 1;
  close_handlers = s.close_handlers + 1;
}

-- removeEventListener with the functions of the call, which no socket but its own has
abbrev pub without_handshake : Socket → Socket
without_handshake s = record s {
  on_open = false;
  on_message = false;
  on_error = false;
  on_close = false;
}

-- `cleanup` of the call that made the socket `k`; it acts on `this.ws`.
unfoldable pub cleanup : ℕ → Client → Client
cleanup k c = elim c.ws [
  | none ↦ c
  | some j ↦
      let s = c.sockets j in
      with_socket j (with_handlers (if nat_beq j k then without_handshake s else s)) c
]

-- A promise is settled once.
abbrev pub settled : Promise → Promise → Promise
settled pending p = p
settled resolved p = resolved
settled rejected p = rejected

unfoldable pub settle : ℕ → Promise → Client → Client
settle k p c = let s = c.sockets k in with_socket k (record s { promise = settled s.promise p }) c

abbrev pub set_ready : ℕ → ReadyState → Client → Client
set_ready k state c = with_socket k (record (c.sockets k) { ready_state = state }) c

-- onOpen
unfoldable pub opened : ℕ → Client → Client
unfolding cleanup
opened k c = cleanup k (record c { connected = true; reconnect_attempts = 0 })

-- onMessage, on the text as JSON.parse gives it, if it does.
unfoldable pub handshake_message : ℕ → Option Json → Client → Step
unfolding settle
handshake_message k none c = (c, [])
handshake_message k (some msg) c =
    let greeted = emits (codes "connected") msg none c then λ c'. (settle k resolved c', []) in
    let first : Step = elim (type_of msg) [
      | none ↦ (c, [])
      | some kind ↦ if kind == codes "welcome" then greeted else (c, [])
    ] in
    first then handle_server_message msg

-- The handlers behind the handshake, each on the same message.
unfoldable pub lasting_messages : ℕ → Option Json → Client → Step
lasting_messages n none c = (c, [])
lasting_messages zero (some msg) c = (c, [])
lasting_messages (suc n) (some msg) c =
    handle_server_message msg c then lasting_messages n (some msg)

-- Math.min(delay * 2 ** (attempts - 1), 30000)
unfoldable pub capped_delay : LiveRelayConfig → ℕ → ℕ
capped_delay config attempts = min (config.reconnect_delay * 2 ^ (attempts - 1)) 30000

abbrev pub reconnect_note : LiveRelayConfig → ℕ → Json
reconnect_note config attempt = obj (
    field (codes "attempt") (num (decimal attempt)) (
      field (codes "maxAttempts") (num (decimal config.max_reconnect_attempts))
        (field (codes "delay") (num (decimal (capped_delay config attempt))) end)))

-- The timer's part of `attemptReconnect`.
unfoldable pub schedule : Client → Step
unfolding capped_delay
schedule c =
    let id = c.next_timer in
    (
      record c { reconnect_timer = some id; next_timer = id + 1; timers = Sets.add id c.timers },
      starts_timer id (capped_delay c.config c.reconnect_attempts) ∷ [],
    )

unfoldable pub attempt_reconnect : Client → Step
unfolding schedule
attempt_reconnect c =
    let attempt = c.reconnect_attempts + 1 in
    emits (codes "reconnecting") (reconnect_note c.config attempt) none
      (record c { reconnect_attempts = attempt })
    then schedule

abbrev pub close_note : ℕ → Str → Json
close_note code reason =
    obj (field (codes "code") (num (decimal code)) (field (codes "reason") (text reason) end))

-- this.config.autoReconnect && this.reconnectAttempts < this.config.maxReconnectAttempts
abbrev pub may_reconnect : Client → Bool
may_reconnect c =
    c.config.auto_reconnect && ltb c.reconnect_attempts c.config.max_reconnect_attempts

unfoldable pub reconnect_if_may : Client → Step
unfolding attempt_reconnect
reconnect_if_may c =
    let retried = attempt_reconnect c in if may_reconnect c then retried else (c, [])

-- The handler of `setupCloseHandler`.
unfoldable pub close_handler : ℕ → Str → Client → Step
unfolding reconnect_if_may
close_handler code reason c =
    emits (codes "disconnected") (close_note code reason) none (record c { connected = false })
    then reconnect_if_may

unfoldable pub lasting_closes : ℕ → ℕ → Str → Client → Step
unfolding close_handler
lasting_closes zero code reason c = (c, [])
lasting_closes (suc n) code reason c = close_handler code reason c then lasting_closes n code reason

-- onError, onClose: both reject.
unfoldable pub refused : ℕ → Client → Client
unfolding cleanup settle
refused k c = settle k rejected (cleanup k c)

-- The dispatch of `error` and of `close`.
unfoldable pub dispatch_error : ℕ → Client → Client
unfolding refused
dispatch_error k c = if (c.sockets k).on_error then refused k c else c

unfoldable pub dispatch_close : ℕ → ℕ → Str → Client → Step
unfolding refused lasting_closes
dispatch_close k code reason c =
    let n = (c.sockets k).close_handlers in
    let c' = if (c.sockets k).on_close then refused k c else c in lasting_closes n code reason c'

-- clearTimeout(this.reconnectTimer)
unfoldable pub stop_timer : Client → Step
stop_timer c = elim c.reconnect_timer [
  | none ↦ (c, [])
  | some id ↦
      (record c { reconnect_timer = none; timers = Sets.remove id c.timers }, stops_timer id ∷ [])
]

-- ws.close(1000, …), which does nothing to a socket that is closed or closing.
abbrev pub close_state : ReadyState → ReadyState
close_state connecting = closing
close_state open_state = closing
close_state closing = closing
close_state closed = closed

unfoldable pub drop_socket : Client → Step
drop_socket c = elim c.ws [
  | none ↦ (c, [])
  | some k ↦ (
    record (set_ready k (close_state (c.sockets k).ready_state) c) { ws = none },
    closes_socket k 1000 (codes "Client disconnect") ∷ [],
  )
]

unfoldable pub disconnect : Client → Step
unfolding stop_timer drop_socket
disconnect c =
    stop_timer (record c { config = record c.config { auto_reconnect = false } })
    then drop_socket
    then λ c'. (record c' { connected = false }, [])

-- isConnected()
unfoldable pub is_connected : Client → Bool
is_connected c = c.connected && (elim c.ws [
  | none ↦ false
  | some k ↦ elim (c.sockets k).ready_state [ open_state ↦ true | _ ↦ false ]
])
