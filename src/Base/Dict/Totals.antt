-- ===== src/Base/Dict/Totals.antt =====
-- How `set` and `delete` change a sum over the entries; the size is the sum of ones.
use Prim.Native.Nat.{ℕ, ◌+◌, ◌≤◌}
use mathlib.Core.Path.{◌≡◌, refl}
use mathlib.Core.List.{[], ◌∷◌}
use mathlib.Core.Option.{Option, none, some}
use native.Mathlib.Omega.{arith}
use live_r.Base.Tests.{to_nat}
use live_r.Base.Lists.{length}
use live_r.Base.Equality.{Eq, eq_iff}
use live_r.Base.Dict.{Dict, get, set, delete, has, size, total, values}
use live_r.Base.Dict.Laws.{IsUnique}

-- The weight of what a key holds.
abbrev pub weight {ℓ κ} : {K : Type ℓ} {V : Type κ} → (K → V → ℕ) → K → Option V → ℕ
weight f k none = 0
weight f k (some v) = f k v

module _ {ℓ κ} {K : Type ℓ} {V : Type κ} where
  pub size-eq-total : (m : Dict K V) → size m ≡ total (λ _ _. 1) m
  unfolding total
  size-eq-total [] = refl
  size-eq-total ((k, v) ∷ m) = omega (arith, size-eq-total m)

  pub length-values : (m : Dict K V) → length (values m) ≡ size m
  unfolding values
  length-values [] = refl
  length-values ((k, v) ∷ m) = omega (arith, length-values m)

  pub total_mono :
      (f g : K → V → ℕ) (m : Dict K V) → ((k : K) (v : V) → f k v ≤ g k v) → total f m ≤ total g m
  unfolding total
  total_mono f g [] h = omega arith
  total_mono f g ((k, v) ∷ m) h = omega (arith, h k v, total_mono f g m h)

module _ {ℓ κ} {K : Type ℓ} {V : Type κ} ⦃e : Eq K⦄ where
  pub total-set :
      (f : K → V → ℕ) (k : K) (v : V) (m : Dict K V)
      → total f (set k v m) + weight f k (get k m) ≡ total f m + f k v
  unfolding total get set
  total-set f k v [] = omega arith
  total-set f k v ((i, w) ∷ m) = ground (arith, eq_iff i k, total-set f k v m)

  delete_absent : (k : K) (m : Dict K V) → get k m ≡ none → delete k m ≡ m
  unfolding get delete
  delete_absent k [] h = refl
  delete_absent k ((i, w) ∷ m) h = ground (arith, delete_absent k m)

  pub total-delete :
      (f : K → V → ℕ) (k : K) (m : Dict K V)
      → IsUnique m
      → total f (delete k m) + weight f k (get k m) ≡ total f m
  unfolding total get delete
  total-delete f k [] h = omega arith
  total-delete f k ((i, w) ∷ m) h =
      ground (arith, eq_iff i k, total-delete f k m h.1, delete_absent i m h.0)

  pub size-set : (k : K) (v : V) (m : Dict K V) → size (set k v m) + to_nat (has k m) ≡ size m + 1
  size-set k v m =
      ground
        (arith, size-eq-total m, size-eq-total (set k v m), total-set (λ (_ : K) (_ : V). 1) k v m)

  pub size-delete :
      (k : K) (m : Dict K V) → IsUnique m → size (delete k m) + to_nat (has k m) ≡ size m
  size-delete k m h = ground (
    arith,
    size-eq-total m,
    size-eq-total (delete k m),
    total-delete (λ (_ : K) (_ : V). 1) k m h,
  )
