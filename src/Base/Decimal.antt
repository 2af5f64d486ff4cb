-- ===== src/Base/Decimal.antt =====
-- How JavaScript prints a non-negative integer in a template or by `toString()`, and the integers
-- that a difference of two numbers may be.
use Prim.Native.Nat.{ℕ, zero, suc, ◌+◌, ◌-◌, ◌/◌, ◌%◌}
use mathlib.Core.Path.{◌≡◌}
use mathlib.Core.Bool.{Bool, false}
use mathlib.Core.List.{[], ◌∷◌, ◌++◌}
use native.Mathlib.Omega.{arith}
use live_r.Base.Tests.{ltb, leb, if◌then◌else◌}
use live_r.Base.Text.{Str}

digits : ℕ → ℕ → Str
digits zero n = []
digits (suc fuel) n =
    let rest = digits fuel (n / 10) in
    if ltb n 10 then (b'0' + n) ∷ [] else rest ++ (b'0' + n % 10) ∷ []

-- A number has at most as many digits as it counts, and one at least.
unfoldable pub decimal : ℕ → Str
unfolding digits
decimal n = digits (suc n) n

-- `negsuc n` is -(n + 1).
pub data ℤ : Type 0 where
  pos : ℕ → ℤ
  negsuc : ℕ → ℤ

-- a - b
abbrev pub sub_ℕ : ℕ → ℕ → ℤ
sub_ℕ a b = if leb b a then pos (a - b) else negsuc (b - a - 1)

-- n <= z
unfoldable pub le_ℤ : ℕ → ℤ → Bool
le_ℤ n (pos z) = leb n z
le_ℤ n (negsuc z) = false

pub le_ℤ-sub_ℕ : (n a b : ℕ) → le_ℤ n (sub_ℕ a b) ≡ leb (n + b) a
unfolding le_ℤ
le_ℤ-sub_ℕ n a b = ground arith
