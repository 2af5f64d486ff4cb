-- ===== src/Limiter/Examples.antt =====
-- Tests and instances for src/core/RateLimiter.ts over a Redis in memory: a window of ten
-- milliseconds and two requests.
use live_r.Base.{ℕ, ◌≤◌, ◌≡◌, refl, true, false, List, [], ◌∷◌, length, arith, leb}
use live_r.Base.Text.{Str, codes}
use live_r.Base.Equality.{str_eq, str_beq}
use live_r.Base.Decimal.{decimal, le_ℤ}
use live_r.Base.Dict
use live_r.Base.Sets
use live_r.Redis.Memory.{memory, memory-IsRedis, empty}
use live_r.Limiter.{RateLimiter, done, check_limit, member_of}
use live_r.Limiter.Calls.{Call, Distinct, result, live, admissions}
use live_r.Limiter.Window.{admissions-le-max_requests}
use live_r.Limiter.Exact.{allowed-live}

abbrev two_per_ten : RateLimiter
two_per_ten = record { window_ms = 10; max_requests = 2; key_prefix = codes "ratelimit" }

abbrev call : ℕ → Str → Call
call now random = record { now = now; random = random; identifier = codes "ws:ann"; outcome = done }

-- Newest first: requests at 3, 4 and 5.
abbrev three_calls : List Call
three_calls = call 5 (codes "c") ∷ call 4 (codes "b") ∷ call 3 (codes "a") ∷ []

three_calls-Distinct : Distinct three_calls
unfolding member_of decimal str_beq
three_calls-Distinct = ((refl, (refl, tt)), ((refl, tt), (tt, tt)))

third_refused :
    (result memory two_per_ten empty
      (call 5 (codes "c"))
      (call 4 (codes "b") ∷ call 3 (codes "a") ∷ [])).allowed
    ≡ false
unfolding result check_limit member_of decimal str_beq memory empty Dict.get Dict.set Dict.delete
    Sets.remove le_ℤ
third_refused = refl

-- The refused request at 5 counts too: at 14 the one of 3 has left the window, and 4 and 5 are in it.
refused_counts :
    (result memory two_per_ten empty
      (call 14 (codes "d"))
      (call 5 (codes "c") ∷ call 4 (codes "b") ∷ call 3 (codes "a") ∷ [])).allowed
    ≡ true
unfolding result check_limit member_of decimal str_beq memory empty Dict.get Dict.set Dict.delete
    Sets.remove le_ℤ
refused_counts = refl

admissions-le-max_requests_example :
    admissions memory two_per_ten empty (codes "ws:ann") 5 three_calls ≤ 2
admissions-le-max_requests_example =
    admissions-le-max_requests memory two_per_ten empty (codes "ws:ann") 5 5 three_calls
      memory-IsRedis (omega arith) three_calls-Distinct

allowed-live_example :
    (result memory two_per_ten empty
      (call 5 (codes "c"))
      (call 4 (codes "b") ∷ call 3 (codes "a") ∷ [])).allowed
    ≡ leb (length (live two_per_ten (codes "ws:ann") 5 three_calls)) 2
unfolding memory empty Dict.get
allowed-live_example =
    allowed-live memory two_per_ten empty (call 5 (codes "c"))
      (call 4 (codes "b") ∷ call 3 (codes "a") ∷ []) memory-IsRedis (omega arith) (λ y. refl)
      (refl, (refl, (refl, tt))) (omega arith) three_calls-Distinct
