-- ===== src/Config/Loaded.antt =====
-- src/config/index.ts: what a configuration that has been loaded is like.
use live_r.Base.{
  ℕ, ◌≤◌, ◌≡◌, refl, subst, ap, List, [], ◌∷◌, ◌++◌, Option, none, some, All, length, arith,
}
use live_r.Base.Text.{Str, codes}
use live_r.Base.Equality.{str_eq}
use live_r.Base.Decimal.{ℤ, pos, negsuc}
use live_r.Config.{
  ConfigKey, port, jwt_secret, api_key, redis_db, rate_limit_window, rate_limit_max_messages,
  rate_limit_max_requests, ws_max_connections, ws_max_rooms_per_connection, ws_heartbeat_interval,
  ws_heartbeat_timeout, ws_max_payload_size, Config, config_schema, Environment, raw, Loading,
  loaded, throws, load_config, positive_number, formatted,
}
use live_r.Config.Schemas.{
  Zod, IsZod, Fits, Passes, NumberCheck, Value, number, string, number_schema, string_schema,
  positive, min, max, min_length, Parsed, success, failure,
}

-- A number within bounds.
abbrev pub Between : ℕ → ℕ → Value → Type 0
Between lo hi v = (n : ℕ) × (v ≡ number (pos n)) × (lo ≤ n) × (n ≤ hi)

abbrev pub IsPositive : Value → Type 0
IsPositive v = (n : ℕ) × (v ≡ number (pos n)) × (1 ≤ n)

-- The checks hold of a default that passes them, and of what is read.
checked :
    (zod : Zod ConfigKey) (checks : List NumberCheck) (default : ℤ) (text : Option Str) (v : Value)
    → All (Passes default) checks
    → Fits zod (number_schema checks default) text v
    → (z : ℤ) × (v ≡ number z) × All (Passes z) checks
checked zod checks default none v passes e = (default, e, passes)
checked zod checks default (some text) v passes (z, e, coerced, passed) = (z, e, passed)

checked-Between :
    (lo hi : ℕ) (v : Value)
    → ((z : ℤ) × (v ≡ number z) × All (Passes z) (min lo ∷ max hi ∷ []))
    → Between lo hi v
checked-Between lo hi v (pos n, e, passed) = (n, e, passed.0, passed.1.0)
checked-Between lo hi v (negsuc n, e, passed) = absurd passed.0

checked-IsPositive :
    (v : Value) → ((z : ℤ) × (v ≡ number z) × All (Passes z) (positive ∷ [])) → IsPositive v
checked-IsPositive v (pos n, e, passed) = (n, e, passed.0)
checked-IsPositive v (negsuc n, e, passed) = absurd passed.0

positive_number-IsPositive :
    (zod : Zod ConfigKey) (n : ℕ) (text : Option Str) (v : Value)
    → 1 ≤ n
    → Fits zod (positive_number (pos n)) text v
    → IsPositive v
unfolding positive_number
positive_number-IsPositive zod n text v le fits =
    checked-IsPositive v (checked zod (positive ∷ []) (pos n) text v (le, tt) fits)

-- A string that must be given.
abbrev pub IsGiven : Option Str → Value → Type 0
IsGiven none v = ⊥
IsGiven (some text) v = (v ≡ string text) × (1 ≤ length text)

given :
    (zod : Zod ConfigKey) (text : Option Str) (v : Value)
    → Fits zod (string_schema (min_length 1 ∷ []) none) text v
    → IsGiven text v
given zod none v fits = fits
given zod (some text) v fits = (fits.0, fits.1.0)

module _ (zod : Zod ConfigKey) (is_zod : IsZod zod) (env : Environment) (config : Config)
    (ready : load_config zod env ≡ loaded config) where
  fields : (k : ConfigKey) → Fits zod (config_schema k) (raw env k) (config k)
  unfolding load_config
  fields = reads (zod.safe_parse config_schema (raw env)) refl ready
    where
      outcome : Parsed ConfigKey → Loading
      outcome (success config') = loaded config'
      outcome (failure errors) = throws (codes "Invalid configuration:\n" ++ formatted errors)

      config_of : Loading → Config
      config_of (loaded c) = c
      config_of (throws text) = config

      reads :
          (parsed : Parsed ConfigKey)
          → zod.safe_parse config_schema (raw env) ≡ parsed
          → outcome parsed ≡ loaded config
          → (k : ConfigKey) → Fits zod (config_schema k) (raw env k) (config k)
      reads (success config') e done k =
          subst (λ (c : Config). Fits zod (config_schema k) (raw env k) (c k)) (ap config_of done)
            (is_zod.fits config_schema (raw env) config' e k)
      reads (failure errors) e done k = absurd (ground (arith, done))

  -- If the configuration is loaded, its port lies between 1 and 65535 and its database of Redis
  -- between 0 and 15, every limit, window and interval is at least 1, and the secret of the tokens and
  -- the key of the API are those of the environment and not empty.
  pub load_config_bounds :
      Between 1 65535 (config port)
      × Between 0 15 (config redis_db)
      × IsPositive (config ws_max_payload_size)
      × IsPositive (config ws_heartbeat_interval)
      × IsPositive (config ws_heartbeat_timeout)
      × IsPositive (config ws_max_connections)
      × IsPositive (config ws_max_rooms_per_connection)
      × IsPositive (config rate_limit_window)
      × IsPositive (config rate_limit_max_messages)
      × IsPositive (config rate_limit_max_requests)
      × IsGiven (env (codes "JWT_SECRET")) (config jwt_secret)
      × IsGiven (env (codes "API_KEY")) (config api_key)
  unfolding config_schema raw
  load_config_bounds =
      let fit = positive_number-IsPositive zod in
      (
        checked-Between 1 65535 (config port) (
            checked zod (min 1 ∷ max 65535 ∷ []) (pos 3001) (raw env port) (config port)
              (omega arith, (omega arith, tt)) (fields port)),
        checked-Between 0 15 (config redis_db) (
            checked zod (min 0 ∷ max 15 ∷ []) (pos 0) (raw env redis_db) (config redis_db)
              (omega arith, (omega arith, tt)) (fields redis_db)),
        fit 65536 (raw env ws_max_payload_size) (config ws_max_payload_size) (omega arith)
            (fields ws_max_payload_size),
        fit 30000 (raw env ws_heartbeat_interval) (config ws_heartbeat_interval) (omega arith)
            (fields ws_heartbeat_interval),
        fit 10000 (raw env ws_heartbeat_timeout) (config ws_heartbeat_timeout) (omega arith)
            (fields ws_heartbeat_timeout),
        fit 10000 (raw env ws_max_connections) (config ws_max_connections) (omega arith)
            (fields ws_max_connections),
        fit 50 (raw env ws_max_rooms_per_connection) (config ws_max_rooms_per_connection)
            (omega arith) (fields ws_max_rooms_per_connection),
        fit 60000 (raw env rate_limit_window) (config rate_limit_window) (omega arith)
            (fields rate_limit_window),
        fit 100 (raw env rate_limit_max_messages) (config rate_limit_max_messages) (omega arith)
            (fields rate_limit_max_messages),
        fit 60 (raw env rate_limit_max_requests) (config rate_limit_max_requests) (omega arith)
            (fields rate_limit_max_requests),
        given zod (env (codes "JWT_SECRET")) (config jwt_secret) (fields jwt_secret),
        given zod (env (codes "API_KEY")) (config api_key) (fields api_key),
      )
