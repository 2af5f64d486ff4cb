-- ===== src/Base/Text.antt =====
-- JavaScript strings as lists of code units, with the methods that the sources call on them.
use Prim.Native.Char.{code}
use Prim.Native.Nat.{ℕ, zero, suc}
use Prim.Native.String.{String}
use mathlib.Core.Path.{◌≡◌, refl}
use mathlib.Core.Bool.{Bool, true, false, ◌&&◌, ◌||◌}
use mathlib.Core.List.{List, [], ◌∷◌, ◌++◌}
use mathlib.Core.Option.{Option, none, some}
use native.Mathlib.Omega.{arith}
use live_r.Base.Tests.{nat_beq, if◌then◌else◌}
use live_r.Base.Lists.{length, drop}

abbrev pub Str : Type 0
Str = List ℕ

-- A literal of the source.
abbrev pub codes : String → Str
codes String.[] = []
codes (String.◌∷◌ letter text) = code letter ∷ codes text

-- s.startsWith(p)
unfoldable pub starts_with : Str → Str → Bool
starts_with s [] = true
starts_with [] (d ∷ p) = false
starts_with (c ∷ s) (d ∷ p) = nat_beq c d && starts_with s p

-- s.includes(c), for one character
unfoldable pub includes : Str → ℕ → Bool
includes [] d = false
includes (c ∷ s) d = nat_beq c d || includes s d

-- s.slice(n)
abbrev pub slice : Str → ℕ → Str
slice s n = drop n s

-- s.split(c)[0]
unfoldable pub before : ℕ → Str → Str
before d [] = []
before d (c ∷ s) = let rest = before d s in if nat_beq c d then [] else c ∷ rest

-- What stands behind the first `d`, if there is one.
unfoldable pub after : ℕ → Str → Option Str
after d [] = none
after d (c ∷ s) = let rest = after d s in if nat_beq c d then some s else rest

-- s.split(c)[i]
unfoldable pub split_at : ℕ → Str → ℕ → Option Str
unfolding after before
split_at d s zero = some (before d s)
split_at d s (suc i) = elim (after d s) [ none ↦ none | some t ↦ split_at d t i ]

pub starts_with-append : (p s : Str) → starts_with (p ++ s) p ≡ true
unfolding starts_with
starts_with-append [] s = refl
starts_with-append (c ∷ p) s = ground (arith, starts_with-append p s)

pub drop-append : (p s : Str) → drop (length p) (p ++ s) ≡ s
drop-append [] s = refl
drop-append (c ∷ p) s = drop-append p s

pub starts_with-eq : (s p : Str) → starts_with s p ≡ true → s ≡ p ++ drop (length p) s
unfolding starts_with
starts_with-eq s [] h = refl
starts_with-eq [] (d ∷ p) h = ground arith
starts_with-eq (c ∷ s) (d ∷ p) h = ground (arith, starts_with-eq s p)

-- A string without the separator is its own first part.
pub before-includes : (d : ℕ) (s : Str) → includes s d ≡ false → before d s ≡ s
unfolding includes before
before-includes d [] h = refl
before-includes d (c ∷ s) h = ground (arith, before-includes d s)

-- The first part holds no separator.
pub includes-before : (d : ℕ) (s : Str) → includes (before d s) d ≡ false
unfolding includes before
includes-before d [] = refl
includes-before d (c ∷ s) = ground (arith, includes-before d s)

-- What stands before the separator is found, whatever follows it.
pub before-append : (d : ℕ) (s t : Str) → includes s d ≡ false → before d (s ++ d ∷ t) ≡ s
unfolding includes before
before-append d [] t h = ground arith
before-append d (c ∷ s) t h = ground (arith, before-append d s t)

pub includes-append : (s t : Str) (d : ℕ) → includes s d ≡ true → includes (s ++ t) d ≡ true
unfolding includes
includes-append [] t d h = cc
includes-append (c ∷ s) t d h = ground (arith, includes-append s t d)
