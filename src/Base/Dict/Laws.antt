-- ===== src/Base/Dict/Laws.antt =====
-- What `get` returns after `set` and `delete`, and maps without a repeated key.
use mathlib.Core.Path.{◌≡◌, refl}
use mathlib.Core.List.{[], ◌∷◌}
use mathlib.Core.Option.{none, some}
use native.Mathlib.Omega.{arith}
use live_r.Base.Tests.{if◌then◌else◌}
use live_r.Base.Equality.{Eq, ◌==◌, eq_iff}
use live_r.Base.Dict.{Dict, get, set, delete, values}
use live_r.Base.Lists.{All}

module _ {ℓ κ} {K : Type ℓ} {V : Type κ} ⦃e : Eq K⦄ where
  pub get-set :
      (k j : K) (v : V) (m : Dict K V) → get j (set k v m) ≡ (if k == j then some v else get j m)
  unfolding get set
  get-set k j v [] = refl
  get-set k j v ((i, w) ∷ m) = ground (arith, eq_iff k j, eq_iff i k, eq_iff i j, get-set k j v m)

  pub get-delete :
      (k j : K) (m : Dict K V) → get j (delete k m) ≡ (if k == j then none else get j m)
  unfolding get delete
  get-delete k j [] = ground arith
  get-delete k j ((i, w) ∷ m) = ground (arith, eq_iff k j, eq_iff i k, eq_iff i j, get-delete k j m)

  -- No key stands twice.
  abbrev pub IsUnique : Dict K V → Type κ
  IsUnique [] = Unit
  IsUnique ((k, v) ∷ m) = (get k m ≡ none) × IsUnique m

  pub set-IsUnique : (k : K) (v : V) (m : Dict K V) → IsUnique m → IsUnique (set k v m)
  unfolding get set
  set-IsUnique k v [] h = (refl, tt)
  set-IsUnique k v ((i, w) ∷ m) h =
      ground (arith, eq_iff i k, eq_iff k i, get-set k i v m, set-IsUnique k v m h.1)

  pub delete-IsUnique : (k : K) (m : Dict K V) → IsUnique m → IsUnique (delete k m)
  unfolding get delete
  delete-IsUnique k [] h = tt
  delete-IsUnique k ((i, w) ∷ m) h = ground (arith, get-delete k i m, delete-IsUnique k m h.1)

  pub values-All {ν} :
      (P : V → Type ν) (m : Dict K V)
      → IsUnique m
      → ((k : K) (v : V) → get k m ≡ some v → P v)
      → All P (values m)
  unfolding get values
  values-All P [] u h = tt
  values-All P ((k, v) ∷ m) u h = (
    h k v (ground (arith, eq_iff k k)),
    values-All P m u.1 (λ j w e. h j w (ground (arith, eq_iff k j))),
  )
