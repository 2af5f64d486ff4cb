-- ===== src/Connections/Add.antt =====
-- `add` of src/core/ConnectionManager.ts.
use live_r.Base.{
  ◌≡◌, true, false, ◌&&◌, ◌||◌, arith, leb, ltb, if◌then◌else◌, Bool-cases, inl, inr, ap,
}
use live_r.Base.Text.{Str}
use live_r.Base.Equality.{str_eq, nat_eq, ◌==◌, eq_iff}
use live_r.Base.Dict
use live_r.Base.Dict.Laws
use live_r.Base.Dict.Totals
use live_r.Base.Sets
use live_r.Types.{Ws, Heap}
use live_r.Connections.{ConnectionManager, add, size}
use live_r.Connections.Invariant.{
  IsIndexed, DistinctIds, sockets_of, registered, is_of, users_of, free_id,
}

-- A refused call changes nothing.
pub add_full :
    (h : Heap) (ws : Ws) (m : ConnectionManager)
    → leb m.max_connections (Dict.size m.connections) ≡ true
    → add h ws m ≡ (m, false)
unfolding add
add_full h ws m full = rw full

module _ (h : Heap) (ws : Ws) (m : ConnectionManager)
    (room : leb m.max_connections (Dict.size m.connections) ≡ false) where
  connections-add : (add h ws m).0.connections ≡ Dict.set (h ws).connection_id ws m.connections
  unfolding add
  connections-add = ground arith

  user_connections-add :
      (add h ws m).0.user_connections
      ≡ Dict.set (h ws).user_id (Sets.add ws (sockets_of (h ws).user_id m)) m.user_connections
  unfolding add
  user_connections-add = ground arith

  max_connections-add : (add h ws m).0.max_connections ≡ m.max_connections
  unfolding add
  max_connections-add = ground arith

  sockets_of-add :
      (u : Str)
      → sockets_of u (add h ws m).0 ≡ (
          if (h ws).user_id == u then Sets.add ws (sockets_of (h ws).user_id m) else sockets_of u m)
  sockets_of-add u = rw user_connections-add (
      ground (
        arith,
        Dict.Laws.get-set (h ws).user_id u (Sets.add ws (sockets_of (h ws).user_id m))
            m.user_connections,
      ))

  module _ (d : DistinctIds h) (v : IsIndexed h m) (off : registered h ws m ≡ false) where
    registered_after : (w : Ws) → registered h w (add h ws m).0 ≡ (ws == w || registered h w m)
    registered_after w = rw connections-add (
        ground (
          arith,
          Dict.Laws.get-set (h ws).connection_id (h w).connection_id ws m.connections,
          eq_iff (h ws).connection_id (h w).connection_id,
          d ws w,
          eq_iff ws w,
          free_id h ws m d v off,
        ))

    absent : Sets.has ws (sockets_of (h ws).user_id m) ≡ false
    absent = ground (arith, v.sets (h ws).user_id ws)

    added-IsIndexed : IsIndexed h (add h ws m).0
    added-IsIndexed = record {
      keyed = λ c. rw connections-add (
          rw (Dict.Laws.get-set (h ws).connection_id c ws m.connections)
            (ground (arith, eq_iff (h ws).connection_id c, v.keyed c)));
      sets = λ u w.
          rw (sockets_of-add u, registered_after w)
            (ground (
              arith,
              Sets.has-add ws w (sockets_of (h ws).user_id m),
              v.sets u w,
              v.sets (h ws).user_id w,
              eq_iff ws w,
              eq_iff (h ws).user_id u,
              eq_iff (h w).user_id u,
              eq_iff (h w).user_id (h ws).user_id,
            ));
      inhabited = λ u s e. ground (
        arith,
        ap (Dict.get u) user_connections-add,
        v.inhabited u s,
        Sets.add-pos ws (sockets_of (h ws).user_id m),
        Dict.Laws.get-set (h ws).user_id u (Sets.add ws (sockets_of (h ws).user_id m))
            m.user_connections,
      );
      set_unique = λ u. rw (sockets_of-add u) (
          ground (
            arith,
            v.set_unique u,
            Sets.add-IsUnique ws (sockets_of (h ws).user_id m) (v.set_unique (h ws).user_id),
          ));
      user_keys = rw user_connections-add (
          Dict.Laws.set-IsUnique (h ws).user_id (Sets.add ws (sockets_of (h ws).user_id m))
            m.user_connections v.user_keys);
      connection_keys =
          rw connections-add
            (Dict.Laws.set-IsUnique (h ws).connection_id ws m.connections v.connection_keys);
      counted = λ u.
          rw (sockets_of-add u, connections-add)
            (ground (
              arith,
              v.counted u,
              v.counted (h ws).user_id,
              absent,
              eq_iff (h ws).user_id u,
              Sets.length-add ws (sockets_of (h ws).user_id m),
              free_id h ws m d v off,
              Dict.Totals.total-set (is_of h u) (h ws).connection_id ws m.connections,
            ));
      summed =
          rw (user_connections-add, connections-add)
            (ground (
              arith,
              v.summed,
              absent,
              free_id h ws m d v off,
              Sets.length-add ws (sockets_of (h ws).user_id m),
              Dict.Totals.total-set users_of (h ws).user_id
                  (Sets.add ws (sockets_of (h ws).user_id m)) m.user_connections,
              Dict.Totals.size-set (h ws).connection_id ws m.connections,
            ));
      bounded =
          rw (connections-add, max_connections-add)
            (ground (arith, Dict.Totals.size-set (h ws).connection_id ws m.connections));
    }

-- With ids that never repeat, `add` of a socket that is not in keeps both maps consistent and the
-- number of connections within the limit, also where it refuses.
pub add-IsIndexed :
    (h : Heap) (ws : Ws) (m : ConnectionManager)
    → DistinctIds h
    → IsIndexed h m
    → registered h ws m ≡ false
    → IsIndexed h (add h ws m).0
add-IsIndexed h ws m d v off = elim (Bool-cases (leb m.max_connections (Dict.size m.connections))) [
  | inl full ↦ rw (add_full h ws m full) v
  | inr room ↦ added-IsIndexed h ws m room d v off
]

-- With ids that never repeat, `add` of a socket that is not in answers whether there was room, and
-- then registers that socket and no other.
pub registered-add :
    (h : Heap) (ws w : Ws) (m : ConnectionManager)
    → DistinctIds h
    → IsIndexed h m
    → registered h ws m ≡ false
    → ((add h ws m).1 ≡ ltb (size m) m.max_connections)
      × (registered h w (add h ws m).0 ≡ (registered h w m || ((add h ws m).1 && ws == w)))
registered-add h ws w m d v off =
    elim (Bool-cases (leb m.max_connections (Dict.size m.connections))) [
      | inl full ↦ rw (add_full h ws m full) (unfold size in ground arith)
      | inr room ↦ (
        unfold add size in ground arith,
        rw (registered_after h ws m room d v off w) (unfold add in ground arith),
      )
    ]
