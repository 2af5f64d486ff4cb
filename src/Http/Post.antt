-- ===== src/Http/Post.antt =====
-- The POST handlers of src/transport/HttpServer.ts: what a request does, and that it is answered.
use live_r.Base.{
  ℕ, ◌+◌, ◌≡◌, refl, Bool, true, false, ◌&&◌, not, List, [], Option, none, some, if◌then◌else◌,
  is_some, arith, Bool-cases, Option-cases, inl, inr,
}
use live_r.Base.Text.{Str, codes, starts_with, slice}
use live_r.Base.Equality.{str_eq, ◌==◌}
use live_r.Protocol.Values.{Json}
use live_r.Types.{Effect}
use live_r.Limiter.{RateLimitResult}
use live_r.Metrics.{
  MetricsCollector, increment_rate_limit_hits, increment_errors, increment_messages_sent,
}
use live_r.Router.{RouteResult}
use live_r.Http.{
  Body, arrived, aborted, Parsed, valid, invalid, require_api_key, extract_api_key, handle_parsed,
  handle_body, behind_limit, post,
}

-- The header that lets a request in.
abbrev pub has_key : Str → Str → Bool
has_key api_key header = starts_with header (codes "Bearer ") && slice header 7 == api_key

abbrev pub within_limit : Option RateLimitResult → Bool
within_limit none = true
within_limit (some result) = result.allowed

abbrev pub is_aborted : Body → Bool
is_aborted (arrived text) = false
is_aborted aborted = true

abbrev pub payload {ℓ} : {A : Type ℓ} → Parsed A → Option A
payload (valid a) = some a
payload (invalid details) = none

-- What a body asks for, if it is a JSON text that the schema takes.
abbrev pub asked {ℓ} : {A : Type ℓ} → (Str → Option Json) → (Json → Parsed A) → Body → Option A
asked parse_json schema aborted = none
asked parse_json schema (arrived text) = elim (parse_json text) [
  | none ↦ none
  | some json ↦ payload (schema json)
]

-- The calls and the count of a payload that is routed, if there is one.
abbrev pub calls_of {ℓ} : {A : Type ℓ} → (A → List Effect × RouteResult) → Option A → List Effect
calls_of route none = []
calls_of route (some a) = (route a).0

abbrev pub delivered_of {ℓ} : {A : Type ℓ} → (A → List Effect × RouteResult) → Option A → ℕ
delivered_of route none = 0
delivered_of route (some a) = (route a).1.delivered

key_refuses :
    (api_key header : Str) → is_some (require_api_key api_key header) ≡ not (has_key api_key header)
unfolding require_api_key extract_api_key
key_refuses api_key header = ground arith

module _ {ℓ} {A : Type ℓ} (parse_json : Str → Option Json) (schema : Json → Parsed A)
    (route : A → List Effect × RouteResult) where
  handled_parsed :
      (gone : Bool) (p : Parsed A) (m : MetricsCollector)
      → let r = handle_parsed parse_json schema route gone p m in
        (r.effects ≡ calls_of route (payload p))
        × (r.metrics.messages_sent ≡ m.messages_sent + delivered_of route (payload p))
        × (is_some r.response ≡ not gone)
  unfolding handle_parsed increment_messages_sent
  handled_parsed gone (valid a) m = (refl, refl, ground arith)
  handled_parsed gone (invalid details) m = (refl, omega arith, ground arith)

  handled_body :
      (gone : Bool) (body : Body) (m : MetricsCollector)
      → (is_aborted body && not gone) ≡ false
      → let r = handle_body parse_json schema route gone body m in
        let a = asked parse_json schema body in
        (r.effects ≡ calls_of route a)
        × (r.metrics.messages_sent ≡ m.messages_sent + delivered_of route a)
        × (is_some r.response ≡ not gone)
  unfolding handle_body increment_errors
  handled_body gone aborted m seen = (refl, omega arith, ground arith)
  handled_body gone (arrived text) m seen = elim (Option-cases (parse_json text)) [
    | inl e ↦ rw (e, handle_body, asked) (refl, ground arith, ground arith)
    | inr (json, e) ↦ rw (e, handle_body, asked) (handled_parsed gone (schema json) m)
  ]

  limited_body :
      (limit : Option RateLimitResult) (gone : Bool) (body : Body) (m : MetricsCollector)
      → (is_aborted body && not gone) ≡ false
      → let r = behind_limit parse_json schema route limit gone body m in
        let a = asked parse_json schema body in
        (r.effects ≡ (if within_limit limit then calls_of route a else []))
        × (r.metrics.messages_sent
            ≡ m.messages_sent + (if within_limit limit then delivered_of route a else 0))
        × (is_some r.response ≡ not gone)
  unfolding behind_limit increment_rate_limit_hits
  limited_body none gone body m seen = handled_body gone body m seen
  limited_body (some result) gone body m seen = elim (Bool-cases result.allowed) [
    | inl allowed' ↦ rw allowed' (handled_body gone body m seen)
    | inr over ↦ rw over (refl, ground arith, ground arith)
  ]

  -- For a body whose abortion is seen as the client's: a POST makes the calls of its route, and
  -- counts what that delivers as sent, exactly if the header has the key, the limiter allows it and
  -- the body is a JSON text that the schema takes; else it makes no call and counts nothing as sent.
  -- It is answered unless it has the key and the client is gone.
  pub post_outcome :
      (api_key header : Str) (limit : Option RateLimitResult) (gone : Bool) (body : Body)
      (m : MetricsCollector)
      → (is_aborted body && not gone) ≡ false
      → let r = post parse_json schema route api_key header limit gone body m in
        let admitted = has_key api_key header && within_limit limit in
        let a = asked parse_json schema body in
        (r.effects ≡ (if admitted then calls_of route a else []))
        × (r.metrics.messages_sent
            ≡ m.messages_sent + (if admitted then delivered_of route a else 0))
        × (is_some r.response ≡ not (has_key api_key header && gone))
  unfolding post require_api_key starts_with
  post_outcome api_key header limit gone body m seen =
      elim (Option-cases (require_api_key api_key header)) [
        | inl e ↦
            let keyed : has_key api_key header ≡ true =
              ground (arith, key_refuses api_key header, e) in
            rw (e, keyed) (limited_body limit gone body m seen)
        | inr (refused, e) ↦
            let keyless : has_key api_key header ≡ false =
              ground (arith, key_refuses api_key header, e) in
            rw (e, keyless) (refl, omega arith, refl)
      ]
