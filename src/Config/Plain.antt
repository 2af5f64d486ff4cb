-- ===== src/Config/Plain.antt =====
-- A parser that does what is documented of zod, for the instances of the theorems on src/config.
use live_r.Base.{
  ℕ, ◌+◌, ◌-◌, ◌*◌, ◌≡◌, refl, sym, subst, ◌∙◌, ap, ap₂, fun_ext, Bool, true, false, ◌&&◌, List, [],
  ◌∷◌, Option, none, some, length, arith, if◌then◌else◌, leb, All,
}
use live_r.Base.Text.{Str, codes}
use live_r.Base.Text
use live_r.Base.Sets
use live_r.Base.Equality.{str_eq}
use live_r.Base.Decimal.{ℤ, pos, negsuc}
use live_r.Config.{ConfigKey}
use live_r.Config.Schemas.{
  Zod, IsZod, Fits, Passes, Holds, Value, number, string, boolean, absent, Parsed, success, failure,
  NumberCheck, positive, min, max, StringCheck, starts_with, min_length, url, Schema, number_schema,
  string_schema, optional_string, enum_schema, preprocessed,
}
use live_r.Config.Keys.{keys, every, every-All, is_key, every_fine}

-- A text of digits as a number.
read_digits : ℕ → Str → Option ℤ
read_digits n [] = some (pos n)
read_digits n (c ∷ s) =
    let rest = read_digits (n * 10 + (c - b'0')) s in
    if leb b'0' c && leb c b'9' then rest else none

passes : ℤ → NumberCheck → Bool
passes (pos n) positive = leb 1 n
passes (pos n) (min k) = leb k n
passes (pos n) (max k) = leb n k
passes (negsuc n) (max k) = true
passes (negsuc n) check = false

holds : Str → StringCheck → Bool
holds text (starts_with p) = Text.starts_with text p
holds text (min_length k) = leb k (length text)
holds text url = Text.includes text b':'

in_range : List NumberCheck → Option ℤ → Option Value
in_range checks none = none
in_range checks (some n) = if every (passes n) checks then some (number n) else none

parse : Schema → Option Str → Option Value
unfolding read_digits in_range passes holds every
parse (number_schema checks default) none = some (number default)
parse (number_schema checks default) (some text) = in_range checks (read_digits 0 text)
parse (string_schema checks none) none = none
parse (string_schema checks (some default)) none = some (string default)
parse (string_schema checks default) (some text) =
    if every (holds text) checks then some (string text) else none
parse optional_string none = some absent
parse optional_string (some text) = some (string text)
parse (enum_schema options default) none = some (string default)
parse (enum_schema options default) (some text) =
    if Sets.has text options then some (string text) else none
parse (preprocessed f default) none = some (boolean default)
parse (preprocessed f default) (some text) = some (boolean (f text))

is_some : Option Value → Bool
is_some none = false
is_some (some v) = true

value : Option Value → Value
value none = absent
value (some v) = v

fine : (ConfigKey → Schema) → (ConfigKey → Option Str) → ConfigKey → Bool
unfolding parse is_some
fine schemas raw k = is_some (parse (schemas k) (raw k))

values : (ConfigKey → Schema) → (ConfigKey → Option Str) → ConfigKey → Value
unfolding parse value
values schemas raw k = value (parse (schemas k) (raw k))

answered : Bool → (ConfigKey → Value) → Parsed ConfigKey
answered true data' = success data'
answered false data' = failure []

plain_parse : (ConfigKey → Schema) → (ConfigKey → Option Str) → Parsed ConfigKey
unfolding every fine values answered
plain_parse schemas raw = answered (every (fine schemas raw) keys) (values schemas raw)

pub plain_zod : Zod ConfigKey
plain_zod = record {
  coerce = read_digits 0;
  is_url = λ s. Text.includes s b':';
  safe_parse = plain_parse;
}

passes_lem :
    (n : ℤ) (check : NumberCheck)
    → (passes n check ≡ true → Passes n check) × (Passes n check → passes n check ≡ true)
unfolding passes
passes_lem (pos n) positive = (λ h. ground (arith, h), λ h. ground (arith, h))
passes_lem (pos n) (min k) = (λ h. ground (arith, h), λ h. ground (arith, h))
passes_lem (pos n) (max k) = (λ h. ground (arith, h), λ h. ground (arith, h))
passes_lem (negsuc n) (max k) = (λ h. tt, λ h. refl)
passes_lem (negsuc n) positive = (λ h. ground (arith, h), λ h. absurd h)
passes_lem (negsuc n) (min k) = (λ h. ground (arith, h), λ h. absurd h)

holds_lem :
    (text : Str) (check : StringCheck)
    → (holds text check ≡ true → Holds plain_zod text check)
      × (Holds plain_zod text check → holds text check ≡ true)
unfolding holds plain_zod
holds_lem text (starts_with p) = (λ h. h, λ h. h)
holds_lem text (min_length k) = (λ h. ground (arith, h), λ h. ground (arith, h))
holds_lem text url = (λ h. h, λ h. h)

guarded {ℓ} :
    (b : Bool) (w v : Value) {P : Type ℓ}
    → (b ≡ true → P) × (P → b ≡ true)
    → ((if b then some w else none) ≡ some v → (v ≡ w) × P)
      × ((v ≡ w) × P → (if b then some w else none) ≡ some v)
guarded true w v same = (λ h. (ground (arith, h), same.0 refl), λ h. ap some (sym h.0))
guarded false w v same = (λ h. absurd (ground (arith, h)), λ h. absurd (ground (arith, same.1 h.1)))

ranged :
    (checks : List NumberCheck) (r : Option ℤ) (v : Value)
    → (in_range checks r ≡ some v → (n : ℤ) × (v ≡ number n) × (r ≡ some n) × All (Passes n) checks)
      × (((n : ℤ) × (v ≡ number n) × (r ≡ some n) × All (Passes n) checks)
          → in_range checks r ≡ some v)
unfolding in_range
ranged checks none v = (λ h. absurd (ground (arith, h)), λ h. absurd (ground (arith, h.2)))
ranged checks (some m) v =
    let checked =
      guarded (every (passes m) checks) (number m) v (every-All (passes_lem m) checks) in
    (
      λ h. let found = checked.0 h in (m, found.0, refl, found.1),
      λ (n, e, read, passed).
          let same : n ≡ m = ground (arith, read) in
          checked.1 (e ∙ ap number same, subst (λ k. All (Passes k) checks) same passed),
    )

-- What is parsed fits, and what fits is parsed.
parse-Fits :
    (s : Schema) (r : Option Str) (v : Value)
    → (parse s r ≡ some v → Fits plain_zod s r v) × (Fits plain_zod s r v → parse s r ≡ some v)
unfolding parse in_range plain_zod
parse-Fits (number_schema checks default) none v = (λ h. ground (arith, h), λ h. ap some (sym h))
parse-Fits (number_schema checks default) (some text) v = ranged checks (read_digits 0 text) v
parse-Fits (string_schema checks none) none v = (λ h. ground (arith, h), λ h. absurd h)
parse-Fits (string_schema checks (some default)) none v =
    (λ h. ground (arith, h), λ h. ap some (sym h))
parse-Fits (string_schema checks default) (some text) v =
    guarded (every (holds text) checks) (string text) v (every-All (holds_lem text) checks)
parse-Fits optional_string none v = (λ h. ground (arith, h), λ h. ap some (sym h))
parse-Fits optional_string (some text) v = (λ h. ground (arith, h), λ h. ap some (sym h))
parse-Fits (enum_schema options default) none v = (λ h. ground (arith, h), λ h. ap some (sym h))
parse-Fits (enum_schema options default) (some text) v =
    guarded (Sets.has text options) (string text) v (λ h. h, λ h. h)
parse-Fits (preprocessed f default) none v = (λ h. ground (arith, h), λ h. ap some (sym h))
parse-Fits (preprocessed f default) (some text) v = (λ h. ground (arith, h), λ h. ap some (sym h))

value_of : (o : Option Value) → is_some o ≡ true → o ≡ some (value o)
unfolding is_some value
value_of none h = absurd (ground (arith, h))
value_of (some v) h = refl

data_of : Parsed ConfigKey → ConfigKey → Value
data_of (success data') = data'
data_of (failure errors) = λ k. absent

answered_success :
    (b : Bool) (found data' : ConfigKey → Value)
    → answered b found ≡ success data'
    → (b ≡ true) × (found ≡ data')
unfolding answered data_of
answered_success true found data' e = (refl, ap data_of e)
answered_success false found data' e = absurd (ground (arith, e))

-- It is one.
pub plain_zod-IsZod : IsZod plain_zod
unfolding plain_zod plain_parse values fine is_some value answered
plain_zod-IsZod = record {
  fits = λ schemas raw data' e k.
      let found = answered_success (every (fine schemas raw) keys) (values schemas raw) data' e in
      (parse-Fits (schemas k) (raw k) (data' k)).0 (
        value_of (parse (schemas k) (raw k)) (is_key k (fine schemas raw) found.0)
        ∙ ap (λ (d : ConfigKey → Value). some (d k)) found.1);
  accepts = λ schemas raw data' fit.
      let parsed : (k : ConfigKey) → parse (schemas k) (raw k) ≡ some (data' k) =
        λ k. (parse-Fits (schemas k) (raw k) (data' k)).1 (fit k) in
      ap₂ answered (every_fine (fine schemas raw) keys (λ k. ap is_some (parsed k)))
        (fun_ext (λ k. ap value (parsed k)));
}
