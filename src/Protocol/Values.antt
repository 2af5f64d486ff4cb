-- ===== src/Protocol/Values.antt =====
-- JavaScript's JSON values and `JSON.stringify`, which src/protocol/serializer.ts calls.
use live_r.Base.{
  ℕ, ◌≡◌, refl, ◌+◌, ◌-◌, ◌/◌, ◌%◌, Bool, true, false, ◌&&◌, [], ◌∷◌, ◌++◌, leb, ltb, nat_beq,
  if◌then◌else◌,
}
use live_r.Base.{Option, none, some}
use live_r.Base.Text.{Str, codes}
use live_r.Base.Equality.{str_eq, ◌==◌}

mutual
  pub data Json : Type 0 where
    null : Json
    bool : Bool → Json
    num text : Str → Json
    arr : Items → Json
    obj : Fields → Json

  pub data Items : Type 0 where
    nil : Items
    cons : Json → Items → Items

  pub data Fields : Type 0 where
    end : Fields
    field : Str → Json → Fields → Fields

hex_digit : ℕ → ℕ
hex_digit n = if ltb n 10 then b'0' + n else b'a' + (n - 10)

-- \u and four digits
unicode_escape : ℕ → Str
unfolding hex_digit
unicode_escape c =
    codes "\\u"
    ++ (hex_digit (c / 4096 % 16)
        ∷ hex_digit (c / 256 % 16)
        ∷ hex_digit (c / 16 % 16)
        ∷ hex_digit (c % 16)
        ∷ [])

escape : ℕ → Str
unfolding unicode_escape
escape c =
    if nat_beq c 34
    then codes "\\\""
    else if nat_beq c 92
    then codes "\\\\"
    else if nat_beq c 8
    then codes "\\b"
    else if nat_beq c 9
    then codes "\\t"
    else if nat_beq c 10
    then codes "\\n"
    else if nat_beq c 12
    then codes "\\f"
    else if nat_beq c 13
    then codes "\\r"
    else if ltb c 32
    then unicode_escape c
    else c ∷ []

abbrev is_high : ℕ → Bool
is_high c = leb 0xd800 c && ltb c 0xdc00

abbrev is_low : ℕ → Bool
is_low c = leb 0xdc00 c && ltb c 0xe000

-- What follows a high surrogate that is not written yet: its pair, or an escape of it alone.
quote_units : Bool → ℕ → Str → Str
unfolding escape
quote_units false high [] = []
quote_units true high [] = unicode_escape high
quote_units pending high (c ∷ s) =
    let paired = quote_units false 0 s in
    let held = quote_units true c s in
    let before = if pending then unicode_escape high else [] in
    if pending && is_low c
    then high ∷ c ∷ paired
    else if is_high c
    then before ++ held
    else if is_low c
    then before ++ (unicode_escape c ++ paired)
    else before ++ (escape c ++ paired)

quote : Str → Str
unfolding quote_units
quote s = b'"' ∷ (quote_units false 0 s ++ b'"' ∷ [])

unfoldable mutual
  unfolding quote

  pub stringify : Json → Str
  stringify null = codes "null"
  stringify (bool true) = codes "true"
  stringify (bool false) = codes "false"
  stringify (num t) = t
  stringify (text s) = quote s
  stringify (arr nil) = codes "[]"
  stringify (arr (cons j js)) = b'[' ∷ (stringify j ++ stringify_items js)
  stringify (obj end) = codes "{}"
  stringify (obj (field k j fs)) = b'{' ∷ (quote k ++ (b':' ∷ (stringify j ++ stringify_fields fs)))

  pub stringify_items : Items → Str
  stringify_items nil = codes "]"
  stringify_items (cons j js) = b',' ∷ (stringify j ++ stringify_items js)

  pub stringify_fields : Fields → Str
  stringify_fields end = codes "}"
  stringify_fields (field k j fs) =
      b',' ∷ (quote k ++ (b':' ∷ (stringify j ++ stringify_fields fs)))

quoted :
    stringify (obj (field (codes "a\"b") (arr (cons (text (codes "\n")) (cons null nil))) end))
    ≡ codes "{\"a\\\"b\":[\"\\n\",null]}"
unfolding stringify
quoted = refl

-- A property of a parsed object; of two of one name the last counts.
unfoldable pub find_field : Str → Fields → Option Json
find_field name end = none
find_field name (field k j rest) =
    let later = find_field name rest in
    elim later [ some v ↦ some v | none ↦ if k == name then some j else none ]

unfoldable pub property : Str → Json → Option Json
unfolding find_field
property name (obj fields) = find_field name fields
property name j = none
