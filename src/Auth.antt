-- ===== src/Auth.antt =====
-- src/auth/JwtVerifier.ts: what becomes of a token. `jwt.verify` is a parameter: what it returns,
-- or nothing where it throws, which the code answers by null whatever the error.
use live_r.Base.{List, [], ◌∷◌, Option, none, some, or_else, if◌then◌else◌}
use live_r.Base.Text.{Str, codes}
use live_r.Base.Equality.{str_eq, ◌==◌}

pub record JwtPayload : Type 0 where
  -- A claim may be missing, whatever the type says.
  pub sub : Option Str
  pub rooms : Option (List Str)
  pub permissions : Option (List Str)

pub record AuthResult : Type 0 where
  pub user_id : Str
  pub rooms : List Str
  pub permissions : List Str

-- The key is a text or the content of a file.
pub record JwtVerifier : Type 0 where
  pub secret : Str
  pub algorithm : Str

-- new JwtVerifier(options); `read_file` is readFileSync. An empty path counts as none.
unfoldable pub create : (Str → Str) → Str → Option Str → Str → JwtVerifier
create read_file secret public_key_path algorithm = record {
  secret = elim public_key_path [
    | some (c ∷ path) ↦ if algorithm == codes "RS256" then read_file (c ∷ path) else secret
    | _ ↦ secret
  ];
  algorithm = algorithm;
}

-- `if (!decoded.sub)`: missing or empty.
unfoldable pub auth_result : Option Str → JwtPayload → Option AuthResult
auth_result none decoded = none
auth_result (some []) decoded = none
auth_result (some (c ∷ s)) decoded = some record {
  user_id = c ∷ s;
  rooms = or_else [] decoded.rooms;
  permissions = or_else [] decoded.permissions;
}

unfoldable pub verify : (Str → Option JwtPayload) → Str → Option AuthResult
unfolding auth_result
verify jwt_verify token = elim (jwt_verify token) [
  | none ↦ none
  | some decoded ↦ auth_result decoded.sub decoded
]
