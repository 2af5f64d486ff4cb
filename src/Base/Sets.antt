-- ===== src/Base/Sets.antt =====
-- JavaScript's `Set`: a list in insertion order, a new element at the end.
use Prim.Native.Nat.{◌+◌, ◌≤◌}
use mathlib.Core.Path.{◌≡◌, refl}
use mathlib.Core.Bool.{Bool, true, false, not, ◌&&◌, ◌||◌}
use mathlib.Core.List.{List, [], ◌∷◌, ◌++◌}
use native.Mathlib.Omega.{arith}
use live_r.Base.Tests.{if◌then◌else◌, to_nat}
use live_r.Base.Lists.{length, length-append}
use live_r.Base.Equality.{Eq, ◌==◌, eq_iff}

module _ {ℓ} {A : Type ℓ} ⦃e : Eq A⦄ where
  -- s.has(a)
  unfoldable pub has : A → List A → Bool
  has a [] = false
  has a (x ∷ s) = x == a || has a s

  -- s.add(a)
  unfoldable pub add : A → List A → List A
  unfolding has
  add a s = if has a s then s else s ++ a ∷ []

  -- s.delete(a)
  unfoldable pub remove : A → List A → List A
  remove a [] = []
  remove a (x ∷ s) = let rest = remove a s in if x == a then rest else x ∷ rest

  pub has-append : (a : A) (s t : List A) → has a (s ++ t) ≡ (has a s || has a t)
  unfolding has
  has-append a [] t = refl
  has-append a (x ∷ s) t = ground (arith, has-append a s t)

  pub has-add : (a b : A) (s : List A) → has b (add a s) ≡ (a == b || has b s)
  unfolding add
  has-add a b s = ground (arith, has-append b s (a ∷ []), eq_iff a b)

  pub has-remove : (a b : A) (s : List A) → has b (remove a s) ≡ (not (a == b) && has b s)
  unfolding has remove
  has-remove a b [] = ground arith
  has-remove a b (x ∷ s) = ground (arith, eq_iff a b, eq_iff x a, eq_iff x b, has-remove a b s)

  -- No element stands twice.
  abbrev pub IsUnique : List A → Type 0
  IsUnique [] = Unit
  IsUnique (x ∷ s) = (has x s ≡ false) × IsUnique s

  append-IsUnique : (a : A) (s : List A) → IsUnique s → has a s ≡ false → IsUnique (s ++ a ∷ [])
  unfolding has
  append-IsUnique a [] u h = (refl, tt)
  append-IsUnique a (x ∷ s) u h =
      ground (arith, append-IsUnique a s u.1, has-append x s (a ∷ []), eq_iff x a, eq_iff a x)

  pub add-IsUnique : (a : A) (s : List A) → IsUnique s → IsUnique (add a s)
  unfolding add
  add-IsUnique a s u = ground (arith, append-IsUnique a s u)

  pub remove-IsUnique : (a : A) (s : List A) → IsUnique s → IsUnique (remove a s)
  unfolding remove
  remove-IsUnique a [] u = tt
  remove-IsUnique a (x ∷ s) u = ground (arith, remove-IsUnique a s u.1, has-remove a x s)

  pub remove_absent : (a : A) (s : List A) → has a s ≡ false → remove a s ≡ s
  unfolding has remove
  remove_absent a [] h = refl
  remove_absent a (x ∷ s) h = ground (arith, remove_absent a s)

  pub length-remove :
      (a : A) (s : List A) → IsUnique s → length (remove a s) + to_nat (has a s) ≡ length s
  unfolding has remove
  length-remove a [] u = omega arith
  length-remove a (x ∷ s) u =
      ground (arith, eq_iff x a, length-remove a s u.1, remove_absent x s u.0)

  pub length-add : (a : A) (s : List A) → length (add a s) + to_nat (has a s) ≡ length s + 1
  unfolding add
  length-add a s = ground (arith, length-append s (a ∷ []))

  pub has-pos : (a : A) (s : List A) → has a s ≡ true → 1 ≤ length s
  unfolding has
  has-pos a [] h = ground arith
  has-pos a (x ∷ s) h = omega arith

  pub add-pos : (a : A) (s : List A) → 1 ≤ length (add a s)
  unfolding add
  add-pos a s = ground (arith, has-pos a s, length-append s (a ∷ []))

  length-remove_lt : (a : A) (s : List A) → has a s ≡ true → length (remove a s) + 1 ≤ length s
  unfolding has remove
  length-remove_lt a [] h = ground arith
  length-remove_lt a (x ∷ s) h = ground (arith, length-remove_lt a s, length-remove_le a s)
    where
      length-remove_le : (b : A) (t : List A) → length (remove b t) ≤ length t
      length-remove_le b [] = omega arith
      length-remove_le b (y ∷ t) = ground (arith, length-remove_le b t)

  -- A list without repetitions whose elements stand in another is at most as long.
  pub length_mono :
      (s t : List A)
      → IsUnique s
      → ((a : A) → has a s ≡ true → has a t ≡ true)
      → length s ≤ length t
  unfolding has
  length_mono [] t u inside = omega arith
  length_mono (x ∷ s) t u inside = omega (
    arith,
    length-remove_lt x t (inside x (ground (arith, eq_iff x x))),
    length_mono s (remove x t) u.1
        (λ a h. ground (arith, has-remove x a t, inside a, eq_iff x a, u.0, h)),
  )
