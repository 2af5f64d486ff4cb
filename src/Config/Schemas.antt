-- ===== src/Config/Schemas.antt =====
-- zod, of which src/config/index.ts uses `z.object(…).safeParse`: the schemas, and what is documented
-- of them.
use live_r.Base.{ℕ, ◌≤◌, ◌≡◌, Bool, true, List, Option, none, some, All, length}
use live_r.Base.Text.{Str}
use live_r.Base.Text
use live_r.Base.Equality.{str_eq}
use live_r.Base.Sets
use live_r.Base.Decimal.{ℤ, pos, negsuc}

pub data Value : Type 0 where
  number : ℤ → Value
  string : Str → Value
  boolean : Bool → Value
  absent : Value

-- .min(k), .max(k), .positive()
pub data NumberCheck : Type 0 where
  positive : NumberCheck
  min max : ℕ → NumberCheck

-- .startsWith(p), .min(k), .url()
pub data StringCheck : Type 0 where
  starts_with : Str → StringCheck
  min_length : ℕ → StringCheck
  url : StringCheck

-- z.coerce.number().int() and z.string() with checks and a default, z.string().optional(), z.enum(…) with a
-- default, and z.preprocess(f, z.boolean()) with a default.
pub data Schema : Type 0 where
  number_schema : List NumberCheck → ℤ → Schema
  string_schema : List StringCheck → Option Str → Schema
  optional_string : Schema
  enum_schema : List Str → Str → Schema
  preprocessed : (Str → Bool) → Bool → Schema

-- `success` with the data, or the errors by field.
pub data Parsed (Key : Type 0) : Type 0 where
  success : (Key → Value) → Parsed Key
  failure : List (Str × List Str) → Parsed Key

-- `coerce` is JavaScript's `Number(text)` where this is an integer; `is_url` is the test
-- of `.url()`.
pub record Zod (Key : Type 0) : Type 1 where
  pub coerce : Str → Option ℤ
  pub is_url : Str → Bool
  pub safe_parse : (Key → Schema) → (Key → Option Str) → Parsed Key

abbrev pub Passes : ℤ → NumberCheck → Type 0
Passes (pos n) positive = 1 ≤ n
Passes (pos n) (min k) = k ≤ n
Passes (pos n) (max k) = n ≤ k
Passes (negsuc n) (max k) = Unit
Passes (negsuc n) check = ⊥

module _ {Key : Type 0} (zod : Zod Key) where
  abbrev pub Holds : Str → StringCheck → Type 0
  Holds text (starts_with p) = Text.starts_with text p ≡ true
  Holds text (min_length k) = k ≤ length text
  Holds text url = zod.is_url text ≡ true

  -- What a field may become: a missing one its default, another what the schema reads.
  abbrev pub Fits : Schema → Option Str → Value → Type 0
  Fits (number_schema checks default) none v = v ≡ number default
  Fits (number_schema checks default) (some text) v =
      (n : ℤ) × (v ≡ number n) × (zod.coerce text ≡ some n) × All (Passes n) checks
  Fits (string_schema checks none) none v = ⊥
  Fits (string_schema checks (some default)) none v = v ≡ string default
  Fits (string_schema checks default) (some text) v = (v ≡ string text) × All (Holds text) checks
  Fits optional_string none v = v ≡ absent
  Fits optional_string (some text) v = v ≡ string text
  Fits (enum_schema options default) none v = v ≡ string default
  Fits (enum_schema options default) (some text) v =
      (v ≡ string text) × (Sets.has text options ≡ true)
  Fits (preprocessed f default) none v = v ≡ boolean default
  Fits (preprocessed f default) (some text) v = v ≡ boolean (f text)

  -- An object is parsed if each field is, to what its schema reads.
  pub record IsZod : Type 0 where
    pub fits :
        (schemas : Key → Schema) (raw : Key → Option Str) (data' : Key → Value)
        → zod.safe_parse schemas raw ≡ success data'
        → (k : Key) → Fits (schemas k) (raw k) (data' k)
    pub accepts :
        (schemas : Key → Schema) (raw : Key → Option Str) (data' : Key → Value)
        → ((k : Key) → Fits (schemas k) (raw k) (data' k))
        → zod.safe_parse schemas raw ≡ success data'
