-- ===== src/Client/WireExamples.antt =====
-- Instances of what the client and src/protocol read of one another.
use live_r.Base.{◌≡◌, refl, [], ◌∷◌, Option, none, some, if◌then◌else◌, arith}
use live_r.Base.Text.{Str, codes}
use live_r.Base.Equality.{str_eq, str_beq, ◌==◌}
use live_r.Protocol.{ClientMessage, deserialize, to_json}
use live_r.Protocol
use live_r.Protocol.Values.{Json, null, text, stringify}
use live_r.Protocol.Schema.{FieldSchemas, client_message_schema}
use live_r.Client.{Client, create, transmits, handle_server_message}
use live_r.Client.Connection.Events.{connects, opens, run}
use live_r.Client.Wire.{
  IsFields, json_of, written, client_messages_read, heard, server_messages_heard,
}

abbrev open_client : Client
open_client =
    (run (connects ∷ opens 0 ∷ []) (create (codes "ws://host/ws") (codes "t") none none none)).0

-- JSON.parse on one text.
abbrev published : ClientMessage
published = Protocol.publish (codes "room:a") (codes "hi") (some null)

abbrev parse_one : Str → Option Json
parse_one raw = if raw == stringify (json_of published) then some (json_of published) else none

abbrev field_schemas : FieldSchemas
field_schemas = record {
  string_min_one = λ o. elim o [ some (text (c ∷ s)) ↦ some (c ∷ s) | _ ↦ none ];
  unknown = λ o. some o;
}

field_schemas-IsFields : IsFields field_schemas
field_schemas-IsFields = record { not_empty = λ c s. refl; anything = λ j. refl }

client_messages_read_example :
    (written published open_client ≡ transmits 0 (stringify (json_of published)) ∷ [])
    × (deserialize parse_one (client_message_schema field_schemas) (stringify (json_of published))
        ≡ some published)
unfolding create run str_beq stringify
client_messages_read_example =
    client_messages_read parse_one field_schemas 0 published open_client field_schemas-IsFields
      ((λ e. ground (arith, e)), (λ e. ground (arith, e))) refl refl refl

server_messages_heard_example :
    handle_server_message
      (to_json (Protocol.message (codes "room:a") (codes "hi") none 5))
      open_client
    ≡ heard (Protocol.message (codes "room:a") (codes "hi") none 5) open_client
server_messages_heard_example =
    server_messages_heard (Protocol.message (codes "room:a") (codes "hi") none 5) open_client
