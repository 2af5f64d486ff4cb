-- ===== src/Http.antt =====
-- src/transport/HttpServer.ts with middleware/auth.ts: what a request is answered. A missing header
-- is the empty string, as uWebSockets.js gives it. `gone` says whether the client has aborted by the
-- time of the answer: then every access to the response throws, and nothing is answered. The metrics
-- are taken as given.
pub mod Address
pub mod Routes
pub mod Post
pub mod Middleware
mod Examples
use live_r.Base.{
  ℕ, ◌+◌, ◌/◌, Bool, true, false, ◌||◌, ◌&&◌, List, [], ◌∷◌, ◌++◌, Option, none, some,
  if◌then◌else◌, leb, nat_beq,
}
use live_r.Base.Text.{Str, codes, starts_with, slice, before}
use live_r.Base.Equality.{str_eq, ◌==◌}
use live_r.Base.Decimal.{decimal}
use live_r.Protocol.Values.{Json, text, num, bool, obj, Fields, end, field, stringify}
use live_r.Types.{Effect}
use live_r.Limiter.{RateLimitResult}
use live_r.Metrics.{
  MetricsCollector, increment_rate_limit_hits, increment_errors, increment_messages_sent,
}
use live_r.Router.{RouteResult}

pub record Response : Type 0 where
  pub status : Str
  pub headers : List (Str × Str)
  pub body : Str

-- sendJson(res, status, data)
unfoldable pub send_json : Str → Json → Response
send_json status data' = record {
  status = status;
  headers =
      (codes "Content-Type", codes "application/json")
      ∷ (codes "Access-Control-Allow-Origin", codes "*")
      ∷ [];
  body = stringify data';
}

abbrev error_json : Str → Json
error_json reason = obj (field (codes "error") (text reason) end)

-- extractApiKey: what follows `Bearer `, if the header starts with it.
unfoldable pub extract_api_key : Str → Option Str
extract_api_key header =
    if starts_with header (codes "Bearer ") then some (slice header 7) else none

-- requireApiKey: nothing, or the answer that refuses.
unfoldable pub require_api_key : Str → Str → Option Response
unfolding extract_api_key
require_api_key api_key header = elim (extract_api_key header) [
  | none ↦ some unauthorized
  | some provided ↦ if provided == api_key then none else some unauthorized
]
  where
    unauthorized : Response
    unauthorized = record {
      status = codes "401 Unauthorized";
      headers = (codes "Content-Type", codes "application/json") ∷ [];
      body = stringify (error_json (codes "Invalid or missing API key"));
    }

-- Math.ceil(resetIn / 1000)
abbrev seconds : ℕ → ℕ
seconds reset_in = (reset_in + 999) / 1000

-- The answer of `checkRateLimit` to a request that is not allowed.
unfoldable pub too_many : RateLimitResult → Response
too_many result = record {
  status = codes "429 Too Many Requests";
  headers =
      (codes "Content-Type", codes "application/json")
      ∷ (codes "Retry-After", decimal (seconds result.reset_in))
      ∷ (codes "X-RateLimit-Limit", decimal result.limit)
      ∷ (codes "X-RateLimit-Remaining", codes "0")
      ∷ [];
  body = stringify (
      obj (
        field (codes "error") (text (codes "Too many requests"))
          (field (codes "retryAfter") (num (decimal (seconds result.reset_in))) end)));
}

room_field : Option Str → Fields
room_field none = end
room_field (some room) = field (codes "room") (text room) end

unfoldable pub result_json : RouteResult → Json
unfolding room_field
result_json r = obj (
    field (codes "success") (bool r.success) (
      field (codes "delivered") (num (decimal r.delivered))
        (field (codes "timestamp") (text r.timestamp) (room_field r.room))))

-- What `readBody` comes to.
pub data Body : Type 0 where
  arrived : Str → Body
  aborted : Body

-- What a schema's `safeParse` answers: the data, or the errors of the fields.
pub data Parsed {ℓ} (A : Type ℓ) : Type ℓ where
  valid : A → Parsed A
  invalid : Json → Parsed A

-- What a request has changed, the calls made, and its answer.
pub record Posted : Type 0 where
  pub metrics : MetricsCollector
  pub effects : List Effect
  pub response : Option Response

module _ {ℓ} {A : Type ℓ} (parse_json : Str → Option Json) (schema : Json → Parsed A)
    (route : A → List Effect × RouteResult) where
  -- The `try` block of a handler; `m` are the metrics.
  unfoldable pub handle_parsed : Bool → Parsed A → MetricsCollector → Posted
  unfolding send_json
  handle_parsed gone (invalid details) m = record {
    metrics = m;
    effects = [];
    response =
        if gone
        then none
        else some (
            send_json (codes "400 Bad Request") (
              obj (
                field (codes "error") (text (codes "Invalid request body"))
                  (field (codes "details") details end))));
  }
  handle_parsed gone (valid payload) m = record {
    metrics = increment_messages_sent (route payload).1.delivered m;
    effects = (route payload).0;
    response =
        if gone then none else some (send_json (codes "200 OK") (result_json (route payload).1));
  }

  unfoldable pub handle_body : Bool → Body → MetricsCollector → Posted
  unfolding handle_parsed send_json
  handle_body gone aborted m = record { metrics = m; effects = []; response = none }
  handle_body gone (arrived body) m = elim (parse_json body) [
    | none ↦ record {
      metrics = if gone then m else increment_errors m;
      effects = [];
      response =
          if gone
          then none
          else some (send_json (codes "400 Bad Request") (error_json (codes "Invalid JSON body")));
    }
    | some json ↦ handle_parsed gone (schema json) m
  ]

  unfoldable pub behind_limit : Option RateLimitResult → Bool → Body → MetricsCollector → Posted
  unfolding handle_body
  behind_limit none gone body m = handle_body gone body m
  behind_limit (some result) gone body m =
      let handled = handle_body gone body m in
      if result.allowed then handled else record {
        metrics = if gone then m else increment_rate_limit_hits m;
        effects = [];
        response = if gone then none else some (too_many result);
      }

  -- A POST handler: the key, the limiter's answer, if there is one, and the body.
  unfoldable pub post : Str → Str → Option RateLimitResult → Bool → Body → MetricsCollector → Posted
  unfolding behind_limit
  post api_key header limit gone body m = elim (require_api_key api_key header) [
    | some refused ↦ record { metrics = m; effects = []; response = some refused }
    | none ↦ behind_limit limit gone body m
  ]
