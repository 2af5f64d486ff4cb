-- ===== src/Connections/Remove.antt =====
-- `remove` and `closeAll` of src/core/ConnectionManager.ts.
use live_r.Base.{
  ◌+◌, ◌≡◌, refl, not, ◌&&◌, List, [], ◌∷◌, Option, none, some, length, arith, to_nat,
  if◌then◌else◌, inl, inr, Option-cases, ◌⊎◌,
}
use live_r.Base.Text.{Str}
use live_r.Base.Equality.{str_eq, nat_eq, ◌==◌, eq_iff}
use live_r.Base.Dict
use live_r.Base.Dict.Laws
use live_r.Base.Dict.Totals
use live_r.Base.Sets
use live_r.Types.{Ws, Heap}
use live_r.Connections.{ConnectionManager, remove, store_set}
use live_r.Connections.Invariant.{
  IsIndexed, DistinctIds, sockets_of, registered, is_of, users_of, owner,
}

abbrev kept_set : List Ws → Option (List Ws)
kept_set [] = none
kept_set (w ∷ ws) = some (w ∷ ws)

get-store_set :
    (u j : Str) (s : List Ws) (users : Dict.Dict Str (List Ws))
    → Dict.get j (store_set u s users) ≡ (if u == j then kept_set s else Dict.get j users)
unfolding store_set
get-store_set u j [] users = Dict.Laws.get-delete u j users
get-store_set u j (r ∷ rs) users = Dict.Laws.get-set u j (r ∷ rs) users

store_set-IsUnique :
    (u : Str) (s : List Ws) (users : Dict.Dict Str (List Ws))
    → Dict.Laws.IsUnique users
    → Dict.Laws.IsUnique (store_set u s users)
unfolding store_set
store_set-IsUnique u [] users h = Dict.Laws.delete-IsUnique u users h
store_set-IsUnique u (r ∷ rs) users h = Dict.Laws.set-IsUnique u (r ∷ rs) users h

total-store_set :
    (u : Str) (s : List Ws) (users : Dict.Dict Str (List Ws))
    → Dict.Laws.IsUnique users
    → Dict.total users_of (store_set u s users) + Dict.Totals.weight users_of u (Dict.get u users)
      ≡ Dict.total users_of users + length s
unfolding store_set
total-store_set u [] users h = omega (arith, Dict.Totals.total-delete users_of u users h)
total-store_set u (r ∷ rs) users h = omega (arith, Dict.Totals.total-set users_of u (r ∷ rs) users)

module _ (h : Heap) (ws : Ws) (m : ConnectionManager) where
  connections-remove : (remove h ws m).connections ≡ Dict.delete (h ws).connection_id m.connections
  unfolding remove
  connections-remove = refl

  max_connections-remove : (remove h ws m).max_connections ≡ m.max_connections
  unfolding remove
  max_connections-remove = refl

  get-user_connections-remove :
      (u : Str)
      → Dict.get u (remove h ws m).user_connections ≡ (
          if (h ws).user_id == u
          then kept_set (Sets.remove ws (sockets_of (h ws).user_id m))
          else Dict.get u m.user_connections)
  unfolding remove Sets.remove
  get-user_connections-remove u = ground (
    arith,
    eq_iff (h ws).user_id u,
    get-store_set (h ws).user_id u (Sets.remove ws (sockets_of (h ws).user_id m))
        m.user_connections,
  )

  sockets_of-remove :
      (u : Str)
      → sockets_of u (remove h ws m) ≡ (
          if (h ws).user_id == u
          then Sets.remove ws (sockets_of (h ws).user_id m)
          else sockets_of u m)
  sockets_of-remove u = ground (arith, get-user_connections-remove u)

  user_keys-remove :
      Dict.Laws.IsUnique m.user_connections → Dict.Laws.IsUnique (remove h ws m).user_connections
  unfolding remove
  user_keys-remove k = ground (
    arith,
    store_set-IsUnique (h ws).user_id (Sets.remove ws (sockets_of (h ws).user_id m))
        m.user_connections k,
  )

  summed-remove :
      Dict.Laws.IsUnique m.user_connections
      → Dict.total users_of (remove h ws m).user_connections + length (sockets_of (h ws).user_id m)
        ≡ Dict.total users_of m.user_connections
          + length (Sets.remove ws (sockets_of (h ws).user_id m))
  unfolding remove Sets.remove
  summed-remove k = ground (
    arith,
    total-store_set (h ws).user_id (Sets.remove ws (sockets_of (h ws).user_id m)) m.user_connections
        k,
  )

  module _ (d : DistinctIds h) (v : IsIndexed h m) where
    -- What stands under the socket's id: itself or nothing.
    own :
        (Dict.get (h ws).connection_id m.connections ≡ none)
        ⊎ (Dict.get (h ws).connection_id m.connections ≡ some ws)
    own = elim (Option-cases (Dict.get (h ws).connection_id m.connections)) [
      | inl e ↦ inl e
      | inr (x, e) ↦ inr (ground (arith, owner h ws x m d v e))
    ]

    registered_after :
        (w : Ws) → registered h w (remove h ws m) ≡ (not (ws == w) && registered h w m)
    registered_after w = rw connections-remove (
        ground (
          arith,
          Dict.Laws.get-delete (h ws).connection_id (h w).connection_id m.connections,
          eq_iff (h ws).connection_id (h w).connection_id,
          d ws w,
          eq_iff ws w,
          own,
        ))

    present :
        to_nat (Sets.has ws (sockets_of (h ws).user_id m))
        ≡ to_nat (Dict.has (h ws).connection_id m.connections)
    present =
        ground
          (arith, own, v.sets (h ws).user_id ws, eq_iff ws ws, eq_iff (h ws).user_id (h ws).user_id)

    removed-IsIndexed : IsIndexed h (remove h ws m)
    removed-IsIndexed = record {
      keyed = λ c. rw connections-remove (
          rw (Dict.Laws.get-delete (h ws).connection_id c m.connections)
            (ground (arith, v.keyed c)));
      sets = λ u w.
          rw (sockets_of-remove u, registered_after w)
            (ground (
              arith,
              Sets.has-remove ws w (sockets_of (h ws).user_id m),
              v.sets u w,
              v.sets (h ws).user_id w,
              eq_iff ws w,
              eq_iff (h ws).user_id u,
              eq_iff (h w).user_id u,
              eq_iff (h w).user_id (h ws).user_id,
            ));
      inhabited = λ u s e. ground (arith, get-user_connections-remove u, v.inhabited u s);
      set_unique = λ u. rw (sockets_of-remove u) (
          ground (
            arith,
            v.set_unique u,
            Sets.remove-IsUnique ws (sockets_of (h ws).user_id m) (v.set_unique (h ws).user_id),
          ));
      user_keys = user_keys-remove v.user_keys;
      connection_keys =
          rw connections-remove
            (Dict.Laws.delete-IsUnique (h ws).connection_id m.connections v.connection_keys);
      counted = λ u.
          rw (sockets_of-remove u, connections-remove)
            (ground (
              arith,
              v.counted u,
              v.counted (h ws).user_id,
              present,
              own,
              eq_iff (h ws).user_id u,
              Sets.length-remove ws (sockets_of (h ws).user_id m) (v.set_unique (h ws).user_id),
              Dict.Totals.total-delete (is_of h u) (h ws).connection_id m.connections
                  v.connection_keys,
            ));
      summed = rw connections-remove (
          ground (
            arith,
            v.summed,
            present,
            summed-remove v.user_keys,
            Sets.length-remove ws (sockets_of (h ws).user_id m) (v.set_unique (h ws).user_id),
            Dict.Totals.size-delete (h ws).connection_id m.connections v.connection_keys,
          ));
      bounded =
          rw (connections-remove, max_connections-remove)
            (omega (
              arith,
              v.bounded,
              Dict.Totals.size-delete (h ws).connection_id m.connections v.connection_keys,
            ));
    }

-- With ids that never repeat, `remove` keeps both maps consistent, whether or not the socket was in,
-- and takes that socket out and no other.
pub remove-IsIndexed :
    (h : Heap) (ws : Ws) (m : ConnectionManager)
    → DistinctIds h
    → IsIndexed h m
    → IsIndexed h (remove h ws m)
      × ((w : Ws) → registered h w (remove h ws m) ≡ (not (ws == w) && registered h w m))
remove-IsIndexed h ws m d v = (removed-IsIndexed h ws m d v, registered_after h ws m d v)
