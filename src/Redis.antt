-- ===== src/Redis.antt =====
-- What the sources use of Redis 7 through ioredis: sorted sets, sets and key expiry. The service is
-- a parameter of the model: `Redis` has the commands, `IsRedis` what their documentation says.
pub mod Memory
use live_r.Base.{
  ℕ, ◌+◌, ◌-◌, min, ◌≡◌, Bool, true, false, ◌&&◌, ◌||◌, not, List, Option, none, some,
  if◌then◌else◌, is_some, length, leb, ltb,
}
use live_r.Base.Text.{Str}
use live_r.Base.Equality.{str_eq, ◌==◌}
use live_r.Base.Decimal.{ℤ, pos, negsuc, le_ℤ}
use live_r.Base.Sets

pub record Redis : Type 1 where
  pub Store : Type 0
  -- The score of a member of a sorted set, and its members.
  pub zscore : Str → Str → Store → Option ℕ
  pub zmembers : Str → Store → List Str
  pub zcard : Str → Store → ℕ
  -- From the first, by falling score, up to a place; places count from the end below 0.
  pub zrevrange : Str → ℤ → Store → List Str
  pub zadd : Str → ℕ → Str → Store → Store
  pub zrem : Str → Str → Store → Store
  -- From -inf up to a bound.
  pub zremrangebyscore : Str → ℤ → Store → Store
  pub smembers : Str → Store → List Str
  pub scard : Str → Store → ℕ
  pub sismember : Str → Str → Store → Bool
  pub sadd : Str → Str → Store → Store
  pub srem : Str → Str → Store → Store
  pub del : Str → Store → Store
  -- When a key goes: the time at which it does, the command that sets it to `now + ttl`, and what is
  -- left of the store at a time.
  pub deadline : Str → Store → Option ℕ
  pub pexpire : Str → ℕ → ℕ → Store → Store
  pub elapse : ℕ → Store → Store

abbrev pub above : ℤ → Option ℕ → Option ℕ
above bound none = none
above bound (some s) = if le_ℤ s bound then none else some s

-- How many of `n` members stand up to a place.
abbrev pub up_to : ℤ → ℕ → ℕ
up_to (pos place) n = min (place + 1) n
up_to (negsuc place) n = n - place

-- A key without a deadline stays.
abbrev pub is_due : ℕ → Option ℕ → Bool
is_due now none = false
is_due now (some d) = leb d now

pub record IsRedis (r : Redis) : Type 0 where
  pub zmembers_unique : (k : Str) (st : r.Store) → Sets.IsUnique (r.zmembers k st)
  pub zmembers_score :
      (k x : Str) (st : r.Store) → Sets.has x (r.zmembers k st) ≡ is_some (r.zscore k x st)
  pub zcard_lem : (k : Str) (st : r.Store) → r.zcard k st ≡ length (r.zmembers k st)
  pub zrevrange_unique : (k : Str) (stop : ℤ) (st : r.Store) → Sets.IsUnique (r.zrevrange k stop st)
  pub zrevrange_members :
      (k x : Str) (stop : ℤ) (st : r.Store)
      → Sets.has x (r.zrevrange k stop st) ≡ true
      → Sets.has x (r.zmembers k st) ≡ true
  pub length-zrevrange :
      (k : Str) (stop : ℤ) (st : r.Store)
      → length (r.zrevrange k stop st) ≡ up_to stop (length (r.zmembers k st))
  pub zscore-zadd :
      (k j x y : Str) (s : ℕ) (st : r.Store)
      → r.zscore j y (r.zadd k s x st) ≡ (if k == j && x == y then some s else r.zscore j y st)
  pub zscore-zrem :
      (k j x y : Str) (st : r.Store)
      → r.zscore j y (r.zrem k x st) ≡ (if k == j && x == y then none else r.zscore j y st)
  pub zscore-zremrangebyscore :
      (k j y : Str) (bound : ℤ) (st : r.Store)
      → r.zscore j y (r.zremrangebyscore k bound st)
        ≡ (if k == j then above bound (r.zscore j y st) else r.zscore j y st)
  pub zscore-pexpire :
      (k j y : Str) (now ttl : ℕ) (st : r.Store)
      → r.zscore j y (r.pexpire k now ttl st) ≡ r.zscore j y st
  pub zscore-elapse :
      (j y : Str) (now : ℕ) (st : r.Store)
      → r.zscore j y (r.elapse now st)
        ≡ (if is_due now (r.deadline j st) then none else r.zscore j y st)
  pub zscore-del :
      (k j y : Str) (st : r.Store)
      → r.zscore j y (r.del k st) ≡ (if k == j then none else r.zscore j y st)
  pub deadline-zadd :
      (k j x : Str) (s : ℕ) (st : r.Store) → r.deadline j (r.zadd k s x st) ≡ r.deadline j st
  -- A key whose last member goes loses its deadline with it; else it stays.
  pub deadline-zremrangebyscore :
      (k j y : Str) (bound : ℤ) (st : r.Store)
      → is_some (r.zscore j y (r.zremrangebyscore k bound st)) ≡ true
      → r.deadline j (r.zremrangebyscore k bound st) ≡ r.deadline j st
  pub deadline-pexpire :
      (k j y : Str) (now ttl : ℕ) (st : r.Store)
      → is_some (r.zscore k y st) ≡ true
      → r.deadline j (r.pexpire k now ttl st)
        ≡ (if k == j then some (now + ttl) else r.deadline j st)
  pub deadline-elapse :
      (j : Str) (now : ℕ) (st : r.Store)
      → r.deadline j (r.elapse now st)
        ≡ (if is_due now (r.deadline j st) then none else r.deadline j st)
  pub smembers_unique : (k : Str) (st : r.Store) → Sets.IsUnique (r.smembers k st)
  pub scard_lem : (k : Str) (st : r.Store) → r.scard k st ≡ length (r.smembers k st)
  pub sismember_lem : (k x : Str) (st : r.Store) → r.sismember k x st ≡ Sets.has x (r.smembers k st)
  pub smembers-sadd :
      (k j x y : Str) (st : r.Store)
      → Sets.has y (r.smembers j (r.sadd k x st))
        ≡ (k == j && x == y || Sets.has y (r.smembers j st))
  pub smembers-srem :
      (k j x y : Str) (st : r.Store)
      → Sets.has y (r.smembers j (r.srem k x st))
        ≡ (not (k == j && x == y) && Sets.has y (r.smembers j st))
  pub smembers-del :
      (k j y : Str) (st : r.Store)
      → Sets.has y (r.smembers j (r.del k st)) ≡ (not (k == j) && Sets.has y (r.smembers j st))
