-- ===== src/Limiter.antt =====
-- src/core/RateLimiter.ts: a sliding window over a Redis sorted set. `Date.now()` and the random
-- suffix of a member are arguments. The pipeline is taken as sent and run in one piece.
pub mod Alive
pub mod Calls
pub mod Window
pub mod Exact
mod Examples
use live_r.Base.{
  ℕ, ◌+◌, ◌-◌, ◌≤◌, ◌≡◌, Bool, true, List, [], ◌∷◌, ◌++◌, Option, none, some, leb, if◌then◌else◌,
  or_else,
}
use live_r.Base.Text.{Str, codes}
use live_r.Base.Decimal.{decimal, sub_ℕ}
use live_r.Redis.{Redis}

pub record RateLimitResult : Type 0 where
  pub allowed : Bool
  pub remaining : ℕ
  pub limit : ℕ
  pub reset_in : ℕ

pub record RateLimiter : Type 0 where
  pub window_ms : ℕ
  pub max_requests : ℕ
  pub key_prefix : Str

-- `${this.keyPrefix}:${identifier}`
unfoldable pub key_of : RateLimiter → Str → Str
key_of l identifier = l.key_prefix ++ (codes ":" ++ identifier)

-- `${now}:${random}`
unfoldable pub member_of : ℕ → Str → Str
member_of now random = decimal now ++ (codes ":" ++ random)

-- What becomes of `pipeline.exec()`: the commands run; they run, but the reply to `zcard` is an
-- error; or the promise is rejected and none has run.
pub data Outcome : Type 0 where
  done count_failed rejected : Outcome

unfoldable pub answer : RateLimiter → ℕ → RateLimitResult
answer l count = record {
  allowed = leb count l.max_requests;
  remaining = l.max_requests - count;
  limit = l.max_requests;
  reset_in = l.window_ms;
}

-- The answer of the `catch` branch.
unfoldable pub fail_open : RateLimiter → RateLimitResult
fail_open l = record {
  allowed = true;
  remaining = l.max_requests;
  limit = l.max_requests;
  reset_in = l.window_ms;
}

module _ (r : Redis) where
  -- The four commands of the pipeline, up to and behind the reply to `zcard`.
  unfoldable pub insert_request : RateLimiter → ℕ → Str → Str → r.Store → r.Store
  insert_request l now random key st =
      let purged = r.zremrangebyscore key (sub_ℕ now l.window_ms) st in
      r.zadd key now (member_of now random) purged

  unfoldable pub check_limit :
      RateLimiter → ℕ → Str → Outcome → Str → r.Store → r.Store × RateLimitResult
  unfolding insert_request key_of answer fail_open
  check_limit l now random rejected identifier st = (st, fail_open l)
  check_limit l now random count_failed identifier st =
      let key = key_of l identifier in
      (r.pexpire key now l.window_ms (insert_request l now random key st), answer l 0)
  check_limit l now random done identifier st =
      let key = key_of l identifier in
      let inserted = insert_request l now random key st in
      (r.pexpire key now l.window_ms inserted, answer l (r.zcard key inserted))

  -- reset: `redis.del`, or nothing where that is rejected.
  unfoldable pub reset : RateLimiter → Bool → Str → r.Store → r.Store
  unfolding key_of
  reset l connected identifier st = if connected then r.del (key_of l identifier) st else st
