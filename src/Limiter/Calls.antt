-- ===== src/Limiter/Calls.antt =====
-- src/core/RateLimiter.ts: histories of calls, and which of their requests count at a time.
use live_r.Base.{
  ℕ, ◌+◌, ◌≤◌, ◌≡◌, refl, Bool, true, false, ◌&&◌, List, [], ◌∷◌, ◌++◌, leb, ltb, if◌then◌else◌,
  arith, All, to_nat, append_cancel,
}
use live_r.Base.Text.{Str, codes}
use live_r.Base.Equality.{str_eq, ◌==◌, eq_iff}
use live_r.Base.Sets
use live_r.Redis.{Redis}
use live_r.Limiter.{
  RateLimiter, RateLimitResult, Outcome, done, count_failed, rejected, check_limit, key_of,
  member_of,
}

-- One call of `checkLimit`: its clock, its random suffix, whom it is for, what became of it.
pub record Call : Type 0 where
  pub now : ℕ
  pub random : Str
  pub identifier : Str
  pub outcome : Outcome

abbrev pub is_done : Outcome → Bool
is_done done = true
is_done count_failed = false
is_done rejected = false

abbrev pub member : Call → Str
member c = member_of c.now c.random

-- A history, newest call first: the clock does not go back, and the members that calls for one
-- identifier add to its set are distinct.
abbrev pub Ordered : ℕ → List Call → Type 0
Ordered now [] = Unit
Ordered now (c ∷ cs) = (c.now ≤ now) × Ordered c.now cs

pub Ordered-mono : {n : ℕ} (m : ℕ) (cs : List Call) → Ordered n cs → n ≤ m → Ordered m cs
Ordered-mono m [] o le = tt
Ordered-mono m (c ∷ cs) o le = (omega arith, o.1)

abbrev pub Apart : Call → Call → Type 0
Apart c x = (c.identifier == x.identifier && member c == member x) ≡ false

abbrev pub Distinct : List Call → Type 0
Distinct [] = Unit
Distinct (c ∷ cs) = All (Apart c) cs × Distinct cs

pub key_of_injective : (l : RateLimiter) (a b : Str) → key_of l a ≡ key_of l b → a ≡ b
unfolding key_of
key_of_injective l a b e =
    append_cancel (codes ":") {ys = a} {zs = b}
      (append_cancel l.key_prefix {ys = codes ":" ++ a} {zs = codes ":" ++ b} e)

module _ (r : Redis) (l : RateLimiter) (start : r.Store) where
  -- The store behind a history, and the answer to one more call.
  unfoldable pub after : List Call → r.Store
  after [] = start
  after (c ∷ cs) =
      (check_limit r l c.now c.random c.outcome c.identifier (r.elapse c.now (after cs))).0

  unfoldable pub result : Call → List Call → RateLimitResult
  unfolding after
  result c cs =
      (check_limit r l c.now c.random c.outcome c.identifier (r.elapse c.now (after cs))).1

  -- The call is for the identifier and in the window, and Redis let it through.
  abbrev pub admitted : Str → ℕ → Call → List Call → Bool
  admitted identifier end c cs =
      c.identifier == identifier
      && is_done c.outcome
      && (result c cs).allowed
      && leb c.now end
      && ltb end (c.now + l.window_ms)

  -- How many calls for the identifier, in the window that ends at a time, Redis let through.
  abbrev pub admissions : Str → ℕ → List Call → ℕ
  admissions identifier end [] = 0
  admissions identifier end (c ∷ cs) =
      to_nat (admitted identifier end c cs) + admissions identifier end cs

abbrev pub counts : RateLimiter → Str → ℕ → Call → Bool
counts l identifier time c =
    c.identifier == identifier && is_done c.outcome && ltb time (c.now + l.window_ms)

-- The members that still count at a time.
abbrev pub live : RateLimiter → Str → ℕ → List Call → List Str
live l identifier time [] = []
live l identifier time (c ∷ cs) =
    let rest = live l identifier time cs in
    if counts l identifier time c then member c ∷ rest else rest

pub live-Apart :
    (l : RateLimiter) (identifier : Str) (time : ℕ) (c : Call) (xs : List Call)
    → c.identifier ≡ identifier
    → All (Apart c) xs
    → Sets.has (member c) (live l identifier time xs) ≡ false
unfolding Sets.has
live-Apart l identifier time c [] same h = refl
live-Apart l identifier time c (x ∷ xs) same h = ground (
  arith,
  live-Apart l identifier time c xs same h.1,
  eq_iff c.identifier x.identifier,
  eq_iff x.identifier identifier,
  eq_iff (member c) (member x),
  eq_iff (member x) (member c),
)

pub live-IsUnique :
    (l : RateLimiter) (identifier : Str) (time : ℕ) (xs : List Call)
    → Distinct xs
    → Sets.IsUnique (live l identifier time xs)
live-IsUnique l identifier time [] d = tt
live-IsUnique l identifier time (x ∷ xs) d = ground (
  arith,
  eq_iff x.identifier identifier,
  λ (same : x.identifier ≡ identifier). live-Apart l identifier time x xs same d.0,
  live-IsUnique l identifier time xs d.1,
)
