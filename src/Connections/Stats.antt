-- ===== src/Connections/Stats.antt =====
-- `getStats`, `isUserOnline` and `size` of src/core/ConnectionManager.ts.
use live_r.Base.{◌≤◌, ◌≡◌, List, [], ◌∷◌, some, length, arith, ltb}
use live_r.Base.Text.{Str}
use live_r.Base.Equality.{str_eq, eq_iff}
use live_r.Base.Dict
use live_r.Base.Dict.Laws
use live_r.Types.{Heap, Ws}
use live_r.Connections.{ConnectionManager, get_stats, is_user_online}
use live_r.Connections.Invariant.{IsIndexed, is_of, users_of}

-- A map without empty sets has at most as many keys as elements.
size-le-total :
    (users : Dict.Dict Str (List Ws))
    → Dict.Laws.IsUnique users
    → ((u : Str) (s : List Ws) → Dict.get u users ≡ some s → 1 ≤ length s)
    → Dict.size users ≤ Dict.total users_of users
unfolding Dict.total Dict.get
size-le-total [] k h = omega arith
size-le-total ((u, s) ∷ users) k h = omega (
  arith,
  h u s (ground (arith, eq_iff u u)),
  size-le-total users k.1 (λ j t e. h j t (ground (arith, eq_iff u j, k.0))),
)

-- From consistent maps, the statistics count every connection, at most as many users as
-- connections and never more connections than the limit; and a user is online exactly while one of
-- the connections is the user's.
pub get_stats_bounds :
    (h : Heap) (u : Str) (m : ConnectionManager)
    → IsIndexed h m
    → ((get_stats m).unique_users ≤ (get_stats m).total)
      × ((get_stats m).total ≤ m.max_connections)
      × (is_user_online u m ≡ ltb 0 (Dict.total (is_of h u) m.connections))
unfolding get_stats is_user_online
get_stats_bounds h u m v = (
  omega (arith, v.summed, size-le-total m.user_connections v.user_keys v.inhabited),
  v.bounded,
  ground (arith, v.counted u),
)
