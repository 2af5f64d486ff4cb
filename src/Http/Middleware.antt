-- ===== src/Http/Middleware.antt =====
-- src/transport/middleware/rateLimit.ts: a limiter of requests by address, which nothing calls.
use live_r.Base.{Bool, true, false, Option, none, some, if◌then◌else◌}
use live_r.Base.Text.{Str}
use live_r.Limiter.{RateLimitResult}
use live_r.Http.{Response, too_many}
use live_r.Http.Address.{limit_identifier}

-- checkHttpRateLimit, given the header and what the limiter answers to an identifier: whether the
-- request is allowed, and the response that is sent if it is not.
unfoldable pub check_http_rate_limit : (Str → RateLimitResult) → Str → Bool × Option Response
check_http_rate_limit check_limit forwarded =
    let result = check_limit (limit_identifier forwarded) in
    if result.allowed then (true, none) else (false, some (too_many result))
