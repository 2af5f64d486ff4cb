-- ===== src/Limiter/Exact.antt =====
-- src/core/RateLimiter.ts: which requests the window counts.
use live_r.Base.{
  ℕ, ◌+◌, ◌≤◌, ◌<◌, ◌≡◌, refl, true, ◌&&◌, List, [], ◌∷◌, Option, none, some, leb, is_some,
  if◌then◌else◌, arith, ap, ◌∙◌, sym, length,
}
use live_r.Base.Text.{Str}
use live_r.Base.Equality.{str_eq, ◌==◌, eq_iff}
use live_r.Base.Sets
use native.Mathlib.Nat.{le_refl}
use live_r.Base.Decimal.{ℤ, sub_ℕ, le_ℤ-sub_ℕ}
use live_r.Redis.{Redis, IsRedis, is_due, above}
use live_r.Limiter.{
  RateLimiter, Outcome, done, count_failed, rejected, check_limit, insert_request, key_of,
}
use live_r.Limiter.Calls.{Call, member, Ordered, Distinct, after, result, live, key_of_injective}
use live_r.Limiter.Window.{kept, live-le-zcard}

-- Redis answered every call.
abbrev pub Answered : List Call → Type 0
Answered [] = Unit
Answered (c ∷ cs) = (c.outcome ≡ done) × Answered cs

module _ (r : Redis) (R : IsRedis r) (l : RateLimiter) (identifier : Str) where
  -- A score in the set of the identifier comes from a call that counts while the score is recent.
  abbrev Origin : List Call → Str → Option ℕ → Type 0
  Origin cs y o =
      (s time : ℕ)
      → o ≡ some s
      → time < s + l.window_ms
      → Sets.has y (live l identifier time cs) ≡ true

  zscore-inserted :
      (c : Call) (y : Str) (st : r.Store)
      → r.zscore
          (key_of l identifier)
          y
          (insert_request r l c.now c.random (key_of l c.identifier) (r.elapse c.now st))
        ≡ (if c.identifier == identifier && member c == y
            then some c.now
            else if is_due c.now (r.deadline (key_of l identifier) st)
            then none
            else if c.identifier == identifier
            then above (sub_ℕ c.now l.window_ms) (r.zscore (key_of l identifier) y st)
            else r.zscore (key_of l identifier) y st)
  unfolding insert_request
  zscore-inserted c y st =
      rw
        (
          R.zscore-zadd (key_of l c.identifier) (key_of l identifier) (member c) y c.now _,
          R.zscore-zremrangebyscore (key_of l c.identifier) (key_of l identifier) y
              (sub_ℕ c.now l.window_ms) _,
          R.zscore-elapse (key_of l identifier) y c.now st,
        )
        (ground (
          arith,
          eq_iff c.identifier identifier,
          eq_iff (key_of l c.identifier) (key_of l identifier),
          key_of_injective l c.identifier identifier,
          ap (key_of l) {x = c.identifier} {y = identifier},
        ))

  above-some : (b : ℤ) (o : Option ℕ) (s : ℕ) → above b o ≡ some s → o ≡ some s
  above-some b none s h = h
  above-some b (some n) s h = ground arith

  checked_zscore :
      (c : Call) (st : r.Store) (y : Str) (o : Outcome)
      → o ≡ done
      → r.zscore
          (key_of l identifier)
          y
          (insert_request r l c.now c.random (key_of l c.identifier) st)
        ≡ r.zscore (key_of l identifier) y (check_limit r l c.now c.random o c.identifier st).0
  unfolding check_limit
  checked_zscore c st y done e =
      sym (R.zscore-pexpire (key_of l c.identifier) (key_of l identifier) y c.now l.window_ms _)
  checked_zscore c st y count_failed e = cc
  checked_zscore c st y rejected e = cc

  Origin-step :
      (c : Call) (y : Str) (cs : List Call) (st : r.Store)
      → c.outcome ≡ done
      → Origin cs y (r.zscore (key_of l identifier) y st)
      → Origin (c ∷ cs) y (
          r.zscore
            (key_of l identifier)
            y
            (insert_request r l c.now c.random (key_of l c.identifier) (r.elapse c.now st)))
  unfolding Sets.has
  Origin-step c y cs st ok o s time e recent = ground (
    arith,
    zscore-inserted c y st,
    above-some (sub_ℕ c.now l.window_ms) (r.zscore (key_of l identifier) y st) s,
    o s time,
    eq_iff (member c) y,
  )

  module _ (start : r.Store)
      (empty : (y : Str) → r.zscore (key_of l identifier) y start ≡ none) where
    origin :
        (cs : List Call) (y : Str)
        → Answered cs
        → Origin cs y (r.zscore (key_of l identifier) y (after r l start cs))
    unfolding after
    origin [] y a s time e recent = ground (arith, empty y)
    origin (c ∷ cs) y a s time e recent =
        Origin-step c y cs (after r l start cs) a.0 (origin cs y a.1) s time
          (checked_zscore c (r.elapse c.now (after r l start cs)) y c.outcome a.0 ∙ e) recent

  -- Behind the purge nothing old is left under the key.
  above_recent :
      (now s : ℕ) (o : Option ℕ) → above (sub_ℕ now l.window_ms) o ≡ some s → now < s + l.window_ms
  above_recent now s none h = cc
  above_recent now s (some n) h = ground (arith, le_ℤ-sub_ℕ n now l.window_ms)

module _ (r : Redis) (R : IsRedis r) (l : RateLimiter) (start : r.Store) (c : Call)
    (cs : List Call) where
  abbrev inserted : r.Store
  inserted =
      insert_request r l c.now c.random (key_of l c.identifier)
        (r.elapse c.now (after r l start cs))

  inserted_recent :
      (y : Str) (s : ℕ)
      → 1 ≤ l.window_ms
      → r.zscore (key_of l c.identifier) y inserted ≡ some s
      → c.now < s + l.window_ms
  inserted_recent y s pos e = ground (
    arith,
    zscore-inserted r R l c.identifier c y (after r l start cs),
    eq_iff c.identifier c.identifier,
    above_recent r R l c.identifier c.now s
        (r.zscore (key_of l c.identifier) y (after r l start cs)),
  )

  zcard-le-live :
      ((y : Str) → r.zscore (key_of l c.identifier) y start ≡ none)
      → 1 ≤ l.window_ms
      → Answered (c ∷ cs)
      → r.zcard (key_of l c.identifier) inserted ≤ length (live l c.identifier c.now (c ∷ cs))
  zcard-le-live empty pos a = rw R.zcard_lem (
      Sets.length_mono (r.zmembers (key_of l c.identifier) inserted)
        (live l c.identifier c.now (c ∷ cs)) (R.zmembers_unique (key_of l c.identifier) inserted)
        (λ y h.
          counted y (r.zscore (key_of l c.identifier) y inserted) refl
            (sym (R.zmembers_score (key_of l c.identifier) y inserted) ∙ h)))
    where
      counted :
          (y : Str) (o : Option ℕ)
          → r.zscore (key_of l c.identifier) y inserted ≡ o
          → is_some o ≡ true
          → Sets.has y (live l c.identifier c.now (c ∷ cs)) ≡ true
      counted y none e h = cc
      counted y (some s) e h =
          Origin-step r R l c.identifier c y cs (after r l start cs) a.0
            (origin r R l c.identifier start empty cs y a.1) s c.now e (inserted_recent y s pos e)

  zcard-live :
      ((y : Str) → r.zscore (key_of l c.identifier) y start ≡ none)
      → 1 ≤ l.window_ms
      → Answered (c ∷ cs)
      → Ordered c.now cs
      → Distinct (c ∷ cs)
      → r.zcard (key_of l c.identifier) inserted ≡ length (live l c.identifier c.now (c ∷ cs))
  unfolding after
  zcard-live empty pos a o d = omega (
    arith,
    zcard-le-live empty pos a,
    live-le-zcard r R l c.identifier c.now (after r l start (c ∷ cs)) inserted (c ∷ cs)
        (λ y. sym (
          checked_zscore r R l c.identifier c (r.elapse c.now (after r l start cs)) y c.outcome
            a.0))
        d (kept r R l c.identifier start c.now (c ∷ cs) (le_refl c.now, o) d),
  )

  decide :
      (out : Outcome)
      → out ≡ done
      → (check_limit r l c.now c.random out c.identifier
          (r.elapse c.now (after r l start cs))).1.allowed
        ≡ leb (r.zcard (key_of l c.identifier) inserted) l.max_requests
  unfolding check_limit
  decide count_failed e = cc
  decide rejected e = cc
  decide done e = refl

-- The decision is exact. For a window of at least a millisecond, over a history in which Redis
-- answered every call, the clock does not go back, each identifier's calls add distinct members,
-- and the identifier's set was empty at first: a request is let through exactly if the calls for
-- its identifier in the window that ends with it, the refused ones and itself among them, are at
-- most `maxRequests`.
pub allowed-live :
    (r : Redis) (l : RateLimiter) (start : r.Store) (c : Call) (cs : List Call)
    → IsRedis r
    → 1 ≤ l.window_ms
    → ((y : Str) → r.zscore (key_of l c.identifier) y start ≡ none)
    → Answered (c ∷ cs)
    → Ordered c.now cs
    → Distinct (c ∷ cs)
    → (result r l start c cs).allowed
      ≡ leb (length (live l c.identifier c.now (c ∷ cs))) l.max_requests
unfolding result
allowed-live r l start c cs R pos empty a o d =
    decide r R l start c cs c.outcome a.0
    ∙ ap (λ (k : ℕ). leb k l.max_requests) (zcard-live r R l start c cs empty pos a o d)
