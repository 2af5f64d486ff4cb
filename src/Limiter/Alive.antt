-- ===== src/Limiter/Alive.antt =====
-- src/core/RateLimiter.ts: an entry of the window stays in Redis while it counts. Its score is the
-- time of the request, and the key does not expire before the entry leaves the window.
use live_r.Base.{
  ℕ, ◌+◌, ◌≤◌, ◌<◌, ◌≡◌, true, false, ◌&&◌, Option, none, some, is_some, arith, ap, ◌∙◌,
}
use live_r.Base.Text.{Str}
use live_r.Base.Equality.{str_eq, ◌==◌, eq_iff}
use live_r.Base.Decimal.{sub_ℕ, le_ℤ-sub_ℕ}
use live_r.Redis.{Redis, IsRedis}
use live_r.Limiter.{
  RateLimiter, Outcome, done, count_failed, rejected, check_limit, insert_request, key_of,
  member_of,
}

-- A key without a deadline outlives every time.
abbrev pub Outlives : Option ℕ → ℕ → Type 0
Outlives none n = Unit
Outlives (some d) n = n ≤ d

module _ (r : Redis) (R : IsRedis r) (w : ℕ) where
  abbrev pub Alive : Str → Str → ℕ → r.Store → Type 0
  Alive k x s st = (r.zscore k x st ≡ some s) × Outlives (r.deadline k st) (s + w)

  module _ (k x : Str) (s : ℕ) (now : ℕ) where
    Alive-elapse : (st : r.Store) → now < s + w → Alive k x s st → Alive k x s (r.elapse now st)
    Alive-elapse st inside a =
        rw (R.zscore-elapse k x now st, R.deadline-elapse k now st) (ground arith)

    Alive-zremrangebyscore :
        (j : Str) (st : r.Store)
        → now < s + w
        → Alive k x s st
        → Alive k x s (r.zremrangebyscore j (sub_ℕ now w) st)
    Alive-zremrangebyscore j st inside a =
        (stays, rw (R.deadline-zremrangebyscore j k x (sub_ℕ now w) st (ap is_some stays)) a.1)
      where
        stays : r.zscore k x (r.zremrangebyscore j (sub_ℕ now w) st) ≡ some s
        stays =
            R.zscore-zremrangebyscore j k x (sub_ℕ now w) st ∙ rw a.0 (rw le_ℤ-sub_ℕ (ground arith))

    Alive-zadd :
        (j y : Str) (st : r.Store)
        → (j == k && y == x) ≡ false
        → Alive k x s st
        → Alive k x s (r.zadd j now y st)
    Alive-zadd j y st other a =
        rw (R.zscore-zadd j k y x now st, R.deadline-zadd j k y now st) (ground arith)

    Alive-pexpire :
        (j y : Str) (st : r.Store)
        → is_some (r.zscore j y st) ≡ true
        → s ≤ now
        → Alive k x s st
        → Alive k x s (r.pexpire j now w st)
    Alive-pexpire j y st there le a =
        rw (R.zscore-pexpire j k x now w st, R.deadline-pexpire j k y now w st there) (ground arith)

-- A call keeps what still counts at its time, and its own request counts from then on.
module _ (r : Redis) (R : IsRedis r) (l : RateLimiter) (now : ℕ) (random identifier : Str) where
  pub zscore-insert_request :
      (k : Str) (st : r.Store)
      → r.zscore k (member_of now random) (insert_request r l now random k st) ≡ some now
  unfolding insert_request
  zscore-insert_request k st =
      R.zscore-zadd k k (member_of now random) (member_of now random) now _
      ∙ ground (arith, eq_iff k k, eq_iff (member_of now random) (member_of now random))

  Alive-pipeline :
      (k j x : Str) (s : ℕ) (st : r.Store)
      → now < s + l.window_ms
      → s ≤ now
      → (j == k && member_of now random == x) ≡ false
      → Alive r R l.window_ms k x s st
      → Alive r R l.window_ms k x s
          (r.pexpire j now l.window_ms (insert_request r l now random j (r.elapse now st)))
  unfolding insert_request
  Alive-pipeline k j x s st inside le other a =
      Alive-pexpire r R l.window_ms k x s now j (member_of now random) _
        (ap is_some (zscore-insert_request j (r.elapse now st))) le
        (Alive-zadd r R l.window_ms k x s now j (member_of now random) _ other (
          Alive-zremrangebyscore r R l.window_ms k x s now j _ inside
            (Alive-elapse r R l.window_ms k x s now st inside a)))

  pub Alive-check_limit :
      (k x : Str) (s : ℕ) (o : Outcome) (st : r.Store)
      → now < s + l.window_ms
      → s ≤ now
      → (key_of l identifier == k && member_of now random == x) ≡ false
      → Alive r R l.window_ms k x s st
      → Alive r R l.window_ms k x s (check_limit r l now random o identifier (r.elapse now st)).0
  unfolding check_limit
  Alive-check_limit k x s done st inside le other a =
      Alive-pipeline k (key_of l identifier) x s st inside le other a
  Alive-check_limit k x s count_failed st inside le other a =
      Alive-pipeline k (key_of l identifier) x s st inside le other a
  Alive-check_limit k x s rejected st inside le other a =
      Alive-elapse r R l.window_ms k x s now st inside a

  pub Alive-check_limit_self :
      (st : r.Store)
      → Alive r R l.window_ms
          (key_of l identifier)
          (member_of now random)
          now
          (check_limit r l now random done identifier st).0
  unfolding check_limit
  Alive-check_limit_self st =
      let there = zscore-insert_request (key_of l identifier) st in
      (
        R.zscore-pexpire (key_of l identifier) (key_of l identifier) (member_of now random) now
              l.window_ms _
            ∙ there,
        rw
            (R.deadline-pexpire (key_of l identifier) (key_of l identifier) (member_of now random)
              now l.window_ms _ (ap is_some there))
            (ground (arith, eq_iff (key_of l identifier) (key_of l identifier))),
      )
