-- ===== src/Base/Dict.antt =====
-- JavaScript's `Map`: an association list in insertion order. `set` keeps the place of a key that
-- is there, and a new key goes to the end.
pub mod Laws
pub mod Totals
use Prim.Native.Nat.{ℕ, ◌+◌}
use mathlib.Core.Bool.{Bool}
use mathlib.Core.List.{List, [], ◌∷◌, map}
use mathlib.Core.Option.{Option, none, some}
use live_r.Base.Tests.{if◌then◌else◌, is_some}
use live_r.Base.Lists.{length}
use live_r.Base.Equality.{Eq, ◌==◌}

abbrev pub Dict {ℓ κ} : Type ℓ → Type κ → Type (ℓ ⊔ κ)
Dict K V = List (K × V)

module _ {ℓ κ} {K : Type ℓ} {V : Type κ} where
  -- m.size
  abbrev pub size : Dict K V → ℕ
  size m = length m

  -- m.values()
  unfoldable pub values : Dict K V → List V
  values [] = []
  values ((k, v) ∷ m) = v ∷ values m

  -- The sum of a weight over the entries.
  unfoldable pub total : (K → V → ℕ) → Dict K V → ℕ
  total f [] = 0
  total f ((k, v) ∷ m) = f k v + total f m

module _ {ℓ κ} {K : Type ℓ} {V : Type κ} ⦃e : Eq K⦄ where
  -- m.get(k)
  unfoldable pub get : K → Dict K V → Option V
  get k [] = none
  get k ((j, v) ∷ m) = if j == k then some v else get k m

  -- m.set(k, v)
  unfoldable pub set : K → V → Dict K V → Dict K V
  set k v [] = (k, v) ∷ []
  set k v ((j, w) ∷ m) = if j == k then (k, v) ∷ m else (j, w) ∷ set k v m

  -- m.delete(k)
  unfoldable pub delete : K → Dict K V → Dict K V
  delete k [] = []
  delete k ((j, w) ∷ m) = let rest = delete k m in if j == k then rest else (j, w) ∷ rest

  -- m.has(k)
  abbrev pub has : K → Dict K V → Bool
  has k m = is_some (get k m)
