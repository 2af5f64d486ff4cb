-- ===== src/Connections/Invariant.antt =====
-- src/core/ConnectionManager.ts: its two maps index the same sockets.
use live_r.Base.{
  ℕ, ◌≤◌, ◌≡◌, refl, Bool, false, ◌&&◌, List, [], Option, none, some, or_else, length, arith,
  to_nat, Option-cases, inl, inr,
}
use live_r.Base.Text.{Str}
use live_r.Base.Equality.{str_eq, nat_eq, ◌==◌, eq_iff}
use live_r.Base.Dict
use live_r.Base.Dict.Laws
use live_r.Base.Sets
use live_r.Types.{Ws, Heap}
use live_r.Connections.{ConnectionManager, create}

abbrev pub sockets_of : Str → ConnectionManager → List Ws
sockets_of u m = or_else [] (Dict.get u m.user_connections)

abbrev pub holds : Ws → Option Ws → Bool
holds w none = false
holds w (some v) = v == w

-- The socket is the one under its own connection id.
abbrev pub registered : Heap → Ws → ConnectionManager → Bool
registered h w m = holds w (Dict.get (h w).connection_id m.connections)

abbrev pub HasKey : Heap → Str → Option Ws → Type 0
HasKey h c none = Unit
HasKey h c (some w) = (h w).connection_id ≡ c

-- Connection ids come from nanoid, which does not repeat them.
abbrev pub DistinctIds : Heap → Type 0
DistinctIds h = (v w : Ws) → (h v).connection_id ≡ (h w).connection_id → v ≡ w

-- The weight by which the connections of a user are counted.
abbrev pub is_of : Heap → Str → Str → Ws → ℕ
is_of h u c w = to_nat ((h w).user_id == u)

abbrev pub users_of : Str → List Ws → ℕ
users_of u s = length s

pub record IsIndexed (h : Heap) (m : ConnectionManager) : Type 0 where
  pub keyed : (c : Str) → HasKey h c (Dict.get c m.connections)
  pub sets :
      (u : Str) (w : Ws) → Sets.has w (sockets_of u m) ≡ (registered h w m && (h w).user_id == u)
  pub inhabited : (u : Str) (s : List Ws) → Dict.get u m.user_connections ≡ some s → 1 ≤ length s
  pub set_unique : (u : Str) → Sets.IsUnique (sockets_of u m)
  pub user_keys : Dict.Laws.IsUnique m.user_connections
  pub connection_keys : Dict.Laws.IsUnique m.connections
  pub counted : (u : Str) → length (sockets_of u m) ≡ Dict.total (is_of h u) m.connections
  pub summed : Dict.total users_of m.user_connections ≡ Dict.size m.connections
  pub bounded : Dict.size m.connections ≤ m.max_connections

pub create-IsIndexed : (h : Heap) (max : ℕ) → IsIndexed h (create max)
unfolding create Dict.get Sets.has Dict.total
create-IsIndexed h max = record {
  keyed = λ c. tt;
  sets = λ u w. refl;
  inhabited = λ u s e. ground arith;
  set_unique = λ u. tt;
  user_keys = tt;
  connection_keys = tt;
  counted = λ u. refl;
  summed = refl;
  bounded = omega arith;
}

-- Nothing but a socket itself stands under its connection id.
pub owner :
    (h : Heap) (w x : Ws) (m : ConnectionManager)
    → DistinctIds h
    → IsIndexed h m
    → Dict.get (h w).connection_id m.connections ≡ some x
    → x ≡ w
owner h w x m d v e = ground (arith, v.keyed (h w).connection_id, d x w)

-- A socket that is not registered has a free id.
pub free_id :
    (h : Heap) (w : Ws) (m : ConnectionManager)
    → DistinctIds h
    → IsIndexed h m
    → registered h w m ≡ false
    → Dict.get (h w).connection_id m.connections ≡ none
free_id h w m d v off = elim (Option-cases (Dict.get (h w).connection_id m.connections)) [
  | inl e ↦ e
  | inr (x, e) ↦ ground (arith, owner h w x m d v e, eq_iff x w)
]
