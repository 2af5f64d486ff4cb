-- ===== src/Protocol/Schema.antt =====
-- src/protocol/messages.ts: the schemas of the messages of a client. What zod makes of a field is a
-- parameter, which gets the property of the object, if it is there.
use live_r.Base.{Option, none, some, if◌then◌else◌, ◌>>=◌}
use live_r.Base.Text.{Str, codes}
use live_r.Base.Equality.{str_eq, ◌==◌}
use live_r.Protocol.{ClientMessage, subscribe, unsubscribe, ping, publish}
use live_r.Protocol.Values.{Json, text, property}

-- z.string().min(1) and z.unknown(): what a field is read as, if it is.
pub record FieldSchemas : Type 0 where
  pub string_min_one : Option Json → Option Str
  pub unknown : Option Json → Option (Option Json)

module _ (z : FieldSchemas) where
  subscribe_message_schema : Json → Option ClientMessage
  subscribe_message_schema j = do
    room ← z.string_min_one (property (codes "room") j)
    some (subscribe room)

  unsubscribe_message_schema : Json → Option ClientMessage
  unsubscribe_message_schema j = do
    room ← z.string_min_one (property (codes "room") j)
    some (unsubscribe room)

  publish_message_schema : Json → Option ClientMessage
  publish_message_schema j = do
    room ← z.string_min_one (property (codes "room") j)
    event ← z.string_min_one (property (codes "event") j)
    data' ← z.unknown (property (codes "data") j)
    some (publish room event data')

  -- The literal of `type` says which schema an object goes by.
  schema_of : Option Json → Json → Option ClientMessage
  unfolding subscribe_message_schema unsubscribe_message_schema publish_message_schema
  schema_of (some (text kind)) j =
      if kind == codes "subscribe"
      then subscribe_message_schema j
      else if kind == codes "unsubscribe"
      then unsubscribe_message_schema j
      else if kind == codes "ping"
      then some ping
      else if kind == codes "publish"
      then publish_message_schema j
      else none
  schema_of _ j = none

  unfoldable pub client_message_schema : Json → Option ClientMessage
  unfolding schema_of
  client_message_schema j = schema_of (property (codes "type") j) j
