-- ===== src/Client/Wire.antt =====
-- client/src/LiveRelayClient.ts and src/protocol: that the two sides read what the other writes.
-- JSON.parse is a parameter that reads back what JSON.stringify writes.
use live_r.Base.{ℕ, ◌≡◌, ◌≢◌, refl, ◌∙◌, ap, List, [], ◌∷◌, Option, none, some, or_else, ◌>>=◌}
use live_r.Base.Text.{Str, codes}
use live_r.Base.Equality.{str_eq, str_beq}
use live_r.Protocol.{ClientMessage, ServerMessage, deserialize, to_json}
use live_r.Protocol
use live_r.Protocol.Values.{Json, null, text, end, field, stringify, property, find_field}
use live_r.Protocol.Schema.{FieldSchemas, client_message_schema}
use live_r.Client.Connection.{◌then◌}
use live_r.Client.{
  Client, ClientEffect, transmits, open_state, sends, emits, subscribe, unsubscribe, publish,
  type_of, emit_message, handle_typed, handle_server_message, room_message, typed,
}

-- What is documented of `z.string().min(1)` and of `z.unknown()`.
pub record IsFields (z : FieldSchemas) : Type 0 where
  pub not_empty : (c : ℕ) (s : Str) → z.string_min_one (some (text (c ∷ s))) ≡ some (c ∷ s)
  pub anything : (j : Option Json) → z.unknown j ≡ some j

sends_open :
    (k : ℕ) (j : Json) (c : Client)
    → c.ws ≡ some k
    → (c.sockets k).ready_state ≡ open_state
    → sends j c ≡ transmits k (stringify j) ∷ []
unfolding sends
sends_open k j c own up = rw (own, up) refl

-- The object that is a message of a client.
abbrev pub json_of : ClientMessage → Json
json_of (Protocol.subscribe room) = room_message "subscribe" room
json_of (Protocol.unsubscribe room) = room_message "unsubscribe" room
json_of Protocol.ping = typed "ping" end
json_of (Protocol.publish room event none) =
    typed "publish" (field (codes "room") (text room) (field (codes "event") (text event) end))
json_of (Protocol.publish room event (some j)) = typed "publish" (
    field (codes "room") (text room)
      (field (codes "event") (text event) (field (codes "data") j end)))

-- What the client does to send it: a call of its user, or the answer to a ping.
abbrev pub written : ClientMessage → Client → List ClientEffect
written (Protocol.subscribe room) c = subscribe room c
written (Protocol.unsubscribe room) c = unsubscribe room c
written Protocol.ping c = (handle_server_message (typed "ping" end) c).1
written (Protocol.publish room event data') c = publish room event data' c

-- The schema asks for rooms and events that are not empty.
abbrev pub IsNamed : ClientMessage → Type 0
IsNamed (Protocol.subscribe room) = room ≢ []
IsNamed (Protocol.unsubscribe room) = room ≢ []
IsNamed Protocol.ping = Unit
IsNamed (Protocol.publish room event data') = (room ≢ []) × (event ≢ [])

written-sends : (m : ClientMessage) (c : Client) → written m c ≡ sends (json_of m) c
unfolding subscribe unsubscribe publish handle_server_message handle_typed type_of property str_beq
written-sends (Protocol.subscribe room) c = refl
written-sends (Protocol.unsubscribe room) c = refl
written-sends Protocol.ping c = refl
written-sends (Protocol.publish room event none) c = refl
written-sends (Protocol.publish room event (some j)) c = refl

module _ (z : FieldSchemas) (fields : IsFields z) where
  string_read : (s : Str) → s ≢ [] → z.string_min_one (some (text s)) ≡ some s
  string_read [] named = absurd (named refl)
  string_read (c ∷ s) named = fields.not_empty c s

  schema_reads : (m : ClientMessage) → IsNamed m → client_message_schema z (json_of m) ≡ some m
  unfolding client_message_schema property find_field str_beq
  schema_reads (Protocol.subscribe room) named =
      ap (λ o. o >>= λ r. some (Protocol.subscribe r)) (string_read room named)
  schema_reads (Protocol.unsubscribe room) named =
      ap (λ o. o >>= λ r. some (Protocol.unsubscribe r)) (string_read room named)
  schema_reads Protocol.ping named = refl
  schema_reads (Protocol.publish room event none) named =
      rw (string_read room named.0, string_read event named.1, fields.anything none) refl
  schema_reads (Protocol.publish room event (some j)) named =
      rw (string_read room named.0, string_read event named.1, fields.anything (some j)) refl

-- An open client sends each message as one text, from which the server reads that message, where
-- rooms and events are not empty and JSON.parse reads back the object that was printed.
pub client_messages_read :
    (parse_json : Str → Option Json) (z : FieldSchemas) (k : ℕ) (m : ClientMessage) (c : Client)
    → IsFields z
    → IsNamed m
    → parse_json (stringify (json_of m)) ≡ some (json_of m)
    → c.ws ≡ some k
    → (c.sockets k).ready_state ≡ open_state
    → let payload = stringify (json_of m) in
      (written m c ≡ transmits k payload ∷ [])
      × (deserialize parse_json (client_message_schema z) payload ≡ some m)
unfolding deserialize
client_messages_read parse_json z k m c fields named parses own up = (
  written-sends m c ∙ sends_open k (json_of m) c own up,
  rw (deserialize, parses) (schema_reads z fields m named),
)

-- What a message of the server is to the user of a client: the events that are emitted.
abbrev pub heard : ServerMessage → Client → Client × List ClientEffect
heard (Protocol.welcome connection_id user_id) c =
    emits (codes "welcome") (to_json (Protocol.welcome connection_id user_id)) none c
heard (Protocol.subscribed room) c =
    emits (codes "subscribed") (to_json (Protocol.subscribed room)) none c
heard (Protocol.unsubscribed room) c =
    emits (codes "unsubscribed") (to_json (Protocol.unsubscribed room)) none c
heard (Protocol.message room event data' timestamp) c =
    let j = to_json (Protocol.message room event data' timestamp) in
    emits (codes "message") j none c then emits event (or_else null data') (some j)
heard Protocol.pong c = (c, [])
heard (Protocol.error code reason) c =
    emits (codes "error") (to_json (Protocol.error code reason)) none c
heard (Protocol.system event data') c =
    emits (codes "system") (to_json (Protocol.system event data')) none c

-- A client emits each message of the server under its type, with the whole message as the data, but
-- for a pong, of which it emits nothing; a message of a room it emits once more under its own event,
-- with its data, or null where it has none.
pub server_messages_heard :
    (m : ServerMessage) (c : Client) → handle_server_message (to_json m) c ≡ heard m c
unfolding handle_server_message handle_typed emit_message type_of property find_field str_beq
server_messages_heard (Protocol.welcome connection_id user_id) c = refl
server_messages_heard (Protocol.subscribed room) c = refl
server_messages_heard (Protocol.unsubscribed room) c = refl
server_messages_heard (Protocol.message room event none timestamp) c = refl
server_messages_heard (Protocol.message room event (some j) timestamp) c = refl
server_messages_heard Protocol.pong c = refl
server_messages_heard (Protocol.error code reason) c = refl
server_messages_heard (Protocol.system event data') c = refl
