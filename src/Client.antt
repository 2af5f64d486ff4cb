-- ===== src/Client.antt =====
-- client/src/LiveRelayClient.ts: the client's connection, its reconnection, and what it makes of a
-- message. The platform has the sockets, numbered as they are made, and the timers. Of a socket's
-- event listeners the client adds those of one `connect` call, the handshake, and anonymous ones
-- behind them, which are counted.
pub mod Emitter
pub mod Connection
pub mod Wire
mod Examples
mod WireExamples
use live_r.Base.{
  ℕ, ◌+◌, ◌-◌, ◌*◌, ◌^◌, min, Bool, true, false, not, ◌&&◌, List, [], ◌∷◌, ◌++◌, Option, none, some,
  ltb, nat_beq, if◌then◌else◌, or_else, map, suc, zero, String,
}
use live_r.Base.Text.{Str, codes, includes}
use live_r.Base.Equality.{str_eq, nat_eq, ◌==◌}
use live_r.Base.Decimal.{decimal}
use live_r.Base.Sets
use live_r.Protocol.Values.{property, Json, null, num, text, obj, Fields, end, field, stringify}
use Emitter.{Handlers, Call, no_handlers, emit}

pub record LiveRelayConfig : Type 0 where
  pub url : Str
  pub token : Str
  pub auto_reconnect : Bool
  pub max_reconnect_attempts : ℕ
  pub reconnect_delay : ℕ

-- What has become of a promise.
pub data Promise : Type 0 where
  pending resolved rejected : Promise

pub data ReadyState : Type 0 where
  connecting open_state closing closed : ReadyState

-- Which of `onOpen`, `onMessage`, `onError` and `onClose` of the call that made it a socket still
-- has, how many handlers stand behind them, and the promise of that call.
pub record Socket : Type 0 where
  pub ready_state : ReadyState
  pub on_open : Bool
  pub on_message : Bool
  pub on_error : Bool
  pub on_close : Bool
  pub message_handlers : ℕ
  pub close_handlers : ℕ
  pub promise : Promise

pub data ClientEffect : Type 0 where
  calls : Call → ClientEffect
  -- new WebSocket(url), ws.send(text), ws.close(code, reason)
  opens_socket transmits : ℕ → Str → ClientEffect
  closes_socket : ℕ → ℕ → Str → ClientEffect
  -- setTimeout with its delay, clearTimeout
  starts_timer : ℕ → ℕ → ClientEffect
  stops_timer : ℕ → ClientEffect

pub record Client : Type 0 where
  pub config : LiveRelayConfig
  pub ws : Option ℕ
  pub reconnect_attempts : ℕ
  pub reconnect_timer : Option ℕ
  pub handlers : Handlers
  pub connected : Bool
  -- The platform's: every socket, the number of the next, the timers that run, the next one's.
  pub sockets : ℕ → Socket
  pub next_socket : ℕ
  pub timers : List ℕ
  pub next_timer : ℕ

abbrev pub no_socket : Socket
no_socket = record {
  ready_state = closed;
  on_open = false;
  on_message = false;
  on_error = false;
  on_close = false;
  message_handlers = 0;
  close_handlers = 0;
  promise = pending;
}

-- new LiveRelayClient(config)
unfoldable pub create : Str → Str → Option Bool → Option ℕ → Option ℕ → Client
create url token auto_reconnect max_reconnect_attempts reconnect_delay = record {
  config = record {
    url = url;
    token = token;
    auto_reconnect = or_else true auto_reconnect;
    max_reconnect_attempts = or_else 10 max_reconnect_attempts;
    reconnect_delay = or_else 1000 reconnect_delay;
  };
  ws = none;
  reconnect_attempts = 0;
  reconnect_timer = none;
  handlers = no_handlers;
  connected = false;
  sockets = λ k. no_socket;
  next_socket = 0;
  timers = [];
  next_timer = 0;
}

abbrev pub with_socket : ℕ → Socket → Client → Client
with_socket k s c = record c { sockets = λ j. if nat_beq k j then s else c.sockets j }

-- `emit`, with its calls as effects.
unfoldable pub emits : Str → Json → Option Json → Client → Client × List ClientEffect
emits event data' msg c =
    let (handlers', calls') = emit event data' msg c.handlers in
    (record c { handlers = handlers' }, map calls calls')

-- send: if there is a socket and it is open.
unfoldable pub sends : Json → Client → List ClientEffect
sends data' c = elim c.ws [
  | none ↦ []
  | some k ↦ elim (c.sockets k).ready_state [
    | open_state ↦ transmits k (stringify data') ∷ []
    | _ ↦ []
  ]
]

abbrev pub typed : String → Fields → Json
typed name rest = obj (field (codes "type") (text (codes name)) rest)

abbrev pub room_message : String → Str → Json
room_message name room = typed name (field (codes "room") (text room) end)

-- subscribe(room), unsubscribe(room), publish(room, event, data)
unfoldable pub subscribe : Str → Client → List ClientEffect
subscribe room c = sends (room_message "subscribe" room) c

unfoldable pub unsubscribe : Str → Client → List ClientEffect
unsubscribe room c = sends (room_message "unsubscribe" room) c

unfoldable pub publish : Str → Str → Option Json → Client → List ClientEffect
publish room event data' c =
    sends
      (typed "publish" (
        field (codes "room") (text room) (
          field (codes "event") (text event)
            (elim data' [ none ↦ end | some j ↦ field (codes "data") j end ]))))
      c

abbrev pub as_text : Option Json → Option Str
as_text (some (text s)) = some s
as_text j = none

-- `msg.type`, where it is a string. For no other value is there a handler: `null` throws, which is
-- dropped, and `emit` finds nothing under what is not a string.
unfoldable pub type_of : Json → Option Str
unfolding property
type_of msg = as_text (property (codes "type") msg)

-- `this.emit('message', msg)`, and by the event's name.
unfoldable pub emit_message : Json → Client → Client × List ClientEffect
emit_message msg c =
    let (c', effects) = emits (codes "message") msg none c in
    elim (as_text (property (codes "event") msg)) [
      | none ↦ (c', effects)
      | some event ↦
          let (c'', more) =
            emits event (or_else null (property (codes "data") msg)) (some msg) c' in
          (c'', effects ++ more)
    ]

unfoldable pub handle_typed : Str → Json → Client → Client × List ClientEffect
unfolding emit_message
handle_typed kind msg c =
    if kind == codes "pong"
    then (c, [])
    else if kind == codes "ping"
    then (c, sends (typed "ping" end) c)
    else if kind == codes "message"
    then emit_message msg c
    else emits kind msg none c

unfoldable pub handle_server_message : Json → Client → Client × List ClientEffect
unfolding handle_typed
handle_server_message msg c = elim (type_of msg) [
  | none ↦ (c, [])
  | some kind ↦ handle_typed kind msg c
]
