-- ===== src/Limiter/Window.antt =====
-- src/core/RateLimiter.ts: what the sliding window guarantees over a history of calls.
use live_r.Base.{
  ℕ, ◌≤◌, ◌≡◌, true, List, [], ◌∷◌, is_some, arith, ap, ◌∙◌, sym, All, length, Bool-cases, inl, inr,
  subst,
}
use live_r.Base.Text.{Str}
use live_r.Base.Equality.{str_eq, ◌==◌, eq_iff}
use live_r.Base.Sets
use native.Mathlib.Nat.{le_refl}
use live_r.Redis.{Redis, IsRedis}
use live_r.Limiter.{
  RateLimiter, Outcome, done, count_failed, rejected, check_limit, insert_request, key_of,
}
use live_r.Limiter.Alive.{Alive, Alive-check_limit, Alive-check_limit_self}
use live_r.Limiter.Calls.{
  Call, is_done, member, Ordered, Ordered-mono, Apart, Distinct, key_of_injective, after, result,
  admitted, admissions, counts, live, live-IsUnique,
}

module _ (r : Redis) (R : IsRedis r) (l : RateLimiter) (identifier : Str) where
  abbrev pub Kept : ℕ → r.Store → Call → Type 0
  Kept time st c =
      counts l identifier time c ≡ true
      → Alive r R l.window_ms (key_of l identifier) (member c) c.now st

  Kept_self :
      (c : Call) (o : Outcome) (st : r.Store)
      → is_done o ≡ true
      → c.identifier ≡ identifier
      → Alive r R l.window_ms
          (key_of l identifier)
          (member c)
          c.now
          (check_limit r l c.now c.random o c.identifier st).0
  Kept_self c done st d same =
      subst
        (λ (i : Str).
          Alive r R l.window_ms (key_of l i) (member c) c.now
            (check_limit r l c.now c.random done c.identifier st).0)
        same (Alive-check_limit_self r R l c.now c.random c.identifier st)
  Kept_self c count_failed st d same = cc
  Kept_self c rejected st d same = cc

  -- A later call keeps what counts at its time or later.
  Kept-rest :
      (c : Call) (time : ℕ) (st : r.Store) (xs : List Call)
      → c.now ≤ time
      → Ordered c.now xs
      → All (Apart c) xs
      → All (Kept c.now st) xs
      → All
          (Kept time (check_limit r l c.now c.random c.outcome c.identifier (r.elapse c.now st)).0)
          xs
  Kept-rest c time st [] le o a k = tt
  Kept-rest c time st (x ∷ xs) le o a k = (
    λ on.
        Alive-check_limit r R l c.now c.random c.identifier (key_of l identifier) (member x) x.now
          c.outcome st (ground arith) o.0
          (ground (
            arith,
            eq_iff c.identifier x.identifier,
            eq_iff x.identifier identifier,
            eq_iff (key_of l c.identifier) (key_of l identifier),
            key_of_injective l c.identifier identifier,
          ))
          (k.0 (ground arith)),
    Kept-rest c time st xs le (Ordered-mono c.now xs o.1 o.0) a.1 k.1,
  )

  module _ (start : r.Store) where
    pub kept :
        (time : ℕ) (cs : List Call)
        → Ordered time cs
        → Distinct cs
        → All (Kept time (after r l start cs)) cs
    unfolding after
    kept time [] o d = tt
    kept time (c ∷ cs) o d = (
      λ on.
          Kept_self c c.outcome (r.elapse c.now (after r l start cs)) (ground arith)
            (ground (arith, eq_iff c.identifier identifier)),
      Kept-rest c time (after r l start cs) cs o.0 o.1 d.0 (kept c.now cs o.1 d.1),
    )

  -- What counts has a score.
  live-zscore :
      (time : ℕ) (st : r.Store) (xs : List Call) (y : Str)
      → All (Kept time st) xs
      → Sets.has y (live l identifier time xs) ≡ true
      → is_some (r.zscore (key_of l identifier) y st) ≡ true
  unfolding Sets.has
  live-zscore time st [] y k h = cc
  live-zscore time st (x ∷ xs) y k h = elim (Bool-cases (counts l identifier time x)) [
    | inl on ↦ elim (Bool-cases (member x == y)) [
      | inl e ↦
          subst (λ (z : Str). is_some (r.zscore (key_of l identifier) z st) ≡ true)
            ((eq_iff (member x) y).0 e) (ap is_some (k.0 on).0)
      | inr ne ↦ live-zscore time st xs y k.1 (ground arith)
    ]
    | inr off ↦ live-zscore time st xs y k.1 (ground arith)
  ]

  -- So at least that many are counted by `zcard`, also in a store with the same scores.
  pub live-le-zcard :
      (time : ℕ) (st st' : r.Store) (xs : List Call)
      → ((y : Str) → r.zscore (key_of l identifier) y st ≡ r.zscore (key_of l identifier) y st')
      → Distinct xs
      → All (Kept time st) xs
      → length (live l identifier time xs) ≤ r.zcard (key_of l identifier) st'
  live-le-zcard time st st' xs same d k = rw R.zcard_lem (
      Sets.length_mono (live l identifier time xs) (r.zmembers (key_of l identifier) st')
        (live-IsUnique l identifier time xs d)
        (λ y h.
          R.zmembers_score (key_of l identifier) y st'
          ∙ ap is_some (sym (same y))
          ∙ live-zscore time st xs y k h))

  -- What Redis lets through has at most the limit in its window.
  live_allowed :
      (c : Call) (o : Outcome) (xs : List Call) (st : r.Store)
      → c.identifier ≡ identifier
      → is_done o ≡ true
      → Distinct xs
      → All (Kept c.now (check_limit r l c.now c.random o c.identifier st).0) xs
      → (check_limit r l c.now c.random o c.identifier st).1.allowed ≡ true
      → length (live l identifier c.now xs) ≤ l.max_requests
  unfolding check_limit
  live_allowed c count_failed xs st same f d k ok = cc
  live_allowed c rejected xs st same f d k ok = cc
  live_allowed c done xs st same f d k ok =
      let inserted = insert_request r l c.now c.random (key_of l c.identifier) st in
      let fits : r.zcard (key_of l c.identifier) inserted ≤ l.max_requests = ground arith in
      omega (
        arith,
        live-le-zcard c.now _ inserted xs
            (λ y.
              R.zscore-pexpire (key_of l c.identifier) (key_of l identifier) y c.now l.window_ms
                inserted)
            d k,
        ap (λ (i : Str). r.zcard (key_of l i) inserted) same,
        fits,
      )

  admissions-le-live :
      (start : r.Store) (end time : ℕ) (xs : List Call)
      → time ≤ end
      → admissions r l start identifier end xs ≤ length (live l identifier time xs)
  admissions-le-live start end time [] le = omega arith
  admissions-le-live start end time (x ∷ xs) le =
      ground (arith, admissions-le-live start end time xs le)

-- The quota holds. Over any history of calls in which the clock does not go back, each identifier's
-- calls add distinct members, and whatever Redis held before: in every window of `windowMs` that
-- ends at any time, Redis lets at most `maxRequests` requests of an identifier through. Calls for
-- other identifiers, failed calls and the expiry of keys do not change this.
pub admissions-le-max_requests :
    (r : Redis) (l : RateLimiter) (start : r.Store) (identifier : Str) (end now : ℕ)
    (cs : List Call)
    → IsRedis r
    → Ordered now cs
    → Distinct cs
    → admissions r l start identifier end cs ≤ l.max_requests
unfolding after result
admissions-le-max_requests r l start identifier end now [] R o d = omega arith
admissions-le-max_requests r l start identifier end now (c ∷ cs) R o d =
    elim (Bool-cases (admitted r l start identifier end c cs)) [
      | inr off ↦
          rw off
            (omega (arith, admissions-le-max_requests r l start identifier end c.now cs R o.1 d.1))
      | inl on ↦ omega (
        arith,
        admissions-le-live r R l identifier start end c.now (c ∷ cs) (ground arith),
        live_allowed r R l identifier c c.outcome (c ∷ cs) (r.elapse c.now (after r l start cs))
            (ground (arith, eq_iff c.identifier identifier)) (ground arith) d
            (kept r R l identifier start c.now (c ∷ cs) (le_refl c.now, o.1) d) (ground arith),
      )
    ]
