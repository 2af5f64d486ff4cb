-- ===== src/Protocol.antt =====
-- src/protocol: the messages (messages.ts), the error codes (errors.ts) and `serialize`
-- (serializer.ts). A number of a JSON value is the text that JavaScript prints for it.
pub mod Values
pub mod Schema
use live_r.Base.{ℕ, Option, none, some, List, [], ◌∷◌}
use live_r.Base.Text.{Str, codes}
use live_r.Base.Decimal.{decimal}
use Values.{Json, text, num, obj, Fields, end, field, stringify}

pub data ErrorCode : Type 0 where
  auth_failed token_expired rate_limit_exceeded room_not_found : ErrorCode
  permission_denied invalid_message connection_limit internal_error : ErrorCode

-- The value of the enumeration.
abbrev pub code_text : ErrorCode → Str
code_text auth_failed = codes "AUTH_FAILED"
code_text token_expired = codes "TOKEN_EXPIRED"
code_text rate_limit_exceeded = codes "RATE_LIMIT_EXCEEDED"
code_text room_not_found = codes "ROOM_NOT_FOUND"
code_text permission_denied = codes "PERMISSION_DENIED"
code_text invalid_message = codes "INVALID_MESSAGE"
code_text connection_limit = codes "CONNECTION_LIMIT"
code_text internal_error = codes "INTERNAL_ERROR"

-- Client → server. `data` may be left out.
pub data ClientMessage : Type 0 where
  subscribe unsubscribe : Str → ClientMessage
  ping : ClientMessage
  publish : Str → Str → Option Json → ClientMessage

-- Server → client.
pub data ServerMessage : Type 0 where
  welcome : Str → Str → ServerMessage
  subscribed unsubscribed : Str → ServerMessage
  message : Str → Str → Option Json → ℕ → ServerMessage
  pong : ServerMessage
  error : Str → Str → ServerMessage
  system : Str → Json → ServerMessage

abbrev pub create_error : ErrorCode → Str → ServerMessage
create_error code reason = error (code_text code) reason

-- A property that is `undefined` is left out of the text.
abbrev optional : Str → Option Json → Fields → Fields
optional k none rest = rest
optional k (some j) rest = field k j rest

-- The object literal of each message, its `type` first.
abbrev pub to_json : ServerMessage → Json
to_json (welcome connection_id user_id) = obj (
    field (codes "type") (text (codes "welcome")) (
      field (codes "connectionId") (text connection_id)
        (field (codes "userId") (text user_id) end)))
to_json (subscribed room) =
    obj (field (codes "type") (text (codes "subscribed")) (field (codes "room") (text room) end))
to_json (unsubscribed room) =
    obj (field (codes "type") (text (codes "unsubscribed")) (field (codes "room") (text room) end))
to_json (message room event data' timestamp) = obj (
    field (codes "type") (text (codes "message")) (
      field (codes "room") (text room) (
        field (codes "event") (text event) (
          optional (codes "data") data'
            (field (codes "timestamp") (num (decimal timestamp)) end)))))
to_json pong = obj (field (codes "type") (text (codes "pong")) end)
to_json (error code message') = obj (
    field (codes "type") (text (codes "error"))
      (field (codes "code") (text code) (field (codes "message") (text message') end)))
to_json (system event data') = obj (
    field (codes "type") (text (codes "system"))
      (field (codes "event") (text event) (field (codes "data") data' end)))

-- JSON.stringify(message)
unfoldable pub serialize : ServerMessage → Str
serialize m = stringify (to_json m)

-- The text is parsed by JSON.parse, which may throw, and checked by `clientMessageSchema`; both are
-- parameters.
unfoldable pub deserialize :
    (Str → Option Json) → (Json → Option ClientMessage) → Str → Option ClientMessage
deserialize parse_json safe_parse raw = elim (parse_json raw) [
  | none ↦ none
  | some parsed ↦ safe_parse parsed
]
