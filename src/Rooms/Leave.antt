-- ===== src/Rooms/Leave.antt =====
-- `removeUserFromAllRooms` of src/core/RoomManager.ts.
use live_r.Base.{
  ◌≤◌, ◌≡◌, refl, true, false, ◌&&◌, List, [], ◌∷◌, none, some, length, arith, if◌then◌else◌, not,
  Option-cases, inl, inr, ap,
}
use live_r.Base.Text.{Str}
use live_r.Base.Equality.{str_eq, ◌==◌, eq_iff}
use live_r.Base.Dict
use live_r.Base.Dict.Laws
use live_r.Base.Sets
use live_r.Rooms.{
  RoomInfo, RoomManager, remove_user_from_all_rooms, is_member, leave_rooms, store_room,
  drop_member,
}
use live_r.Rooms.Invariant.{
  IsSynced, HasId, members, members_of, rooms_of, is_member-has, get-store_room, members-store_room,
  store_room-IsUnique,
}

-- What each round keeps, the loop keeps.
leave_rooms_induction {ℓ} :
    (P : Dict.Dict Str RoomInfo → Type ℓ) (u : Str)
    → ((r : Str) (room : RoomInfo) (rooms : Dict.Dict Str RoomInfo)
        → Dict.get r rooms ≡ some room
        → P rooms
        → P (store_room r (drop_member u room) rooms))
    → (rs : List Str) (rooms : Dict.Dict Str RoomInfo) → P rooms
    → P (leave_rooms u rs rooms).0
unfolding leave_rooms
leave_rooms_induction P u step [] rooms h = h
leave_rooms_induction P u step (r ∷ rs) rooms h = elim (Option-cases (Dict.get r rooms)) [
  | inl missing ↦ rw (missing, leave_rooms) (leave_rooms_induction P u step rs rooms h)
  | inr (room, found) ↦
      rw (found, leave_rooms)
        (leave_rooms_induction P u step rs (store_room r (drop_member u room) rooms)
          (step r room rooms found h))
]

members-leave_rooms :
    (u j : Str) (rs : List Str) (rooms : Dict.Dict Str RoomInfo)
    → Sets.IsUnique rs
    → members (Dict.get j (leave_rooms u rs rooms).0) ≡ (
        if Sets.has j rs
        then Sets.remove u (members (Dict.get j rooms))
        else members (Dict.get j rooms))
unfolding leave_rooms drop_member Sets.has Sets.remove
members-leave_rooms u j [] rooms h = refl
members-leave_rooms u j (r ∷ rs) rooms h = elim (Option-cases (Dict.get r rooms)) [
  | inl missing ↦
      rw (missing, leave_rooms) (ground (arith, eq_iff r j, members-leave_rooms u j rs rooms h.1))
  | inr (room, found) ↦
      rw (found, leave_rooms)
        (ground (
          arith,
          eq_iff r j,
          members-store_room r j (drop_member u room) rooms,
          members-leave_rooms u j rs (store_room r (drop_member u room) rooms) h.1,
        ))
]

-- All rooms of the list are there.
abbrev Present : Dict.Dict Str RoomInfo → List Str → Type 0
Present rooms [] = Unit
Present rooms (r ∷ rs) = (Dict.has r rooms ≡ true) × Present rooms rs

Present-store_room :
    (r : Str) (room : RoomInfo) (rooms : Dict.Dict Str RoomInfo) (rs : List Str)
    → Sets.has r rs ≡ false
    → Present rooms rs
    → Present (store_room r room rooms) rs
unfolding Sets.has
Present-store_room r room rooms [] h p = tt
Present-store_room r room rooms (j ∷ rs) h p = ground (
  arith,
  eq_iff r j,
  eq_iff j r,
  get-store_room r j room rooms,
  Present-store_room r room rooms rs,
)

left-leave_rooms :
    (u : Str) (rs : List Str) (rooms : Dict.Dict Str RoomInfo)
    → Sets.IsUnique rs
    → Present rooms rs
    → (leave_rooms u rs rooms).1 ≡ rs
unfolding leave_rooms
left-leave_rooms u [] rooms h p = refl
left-leave_rooms u (r ∷ rs) rooms h p = elim (Option-cases (Dict.get r rooms)) [
  | inl missing ↦ ground arith
  | inr (room, found) ↦
      rw (found, leave_rooms)
        (ap (◌∷◌ r) (
          left-leave_rooms u rs (store_room r (drop_member u room) rooms) h.1
            (Present-store_room r (drop_member u room) rooms rs h.0 p.1)))
]

-- A room in the user's set is there, since it has the user as a member.
Present-rooms_of :
    (u : Str) (m : RoomManager) (rs : List Str)
    → IsSynced m
    → ((r : Str) → Sets.has r rs ≡ true → Sets.has r (rooms_of u m) ≡ true)
    → Present m.rooms rs
unfolding Sets.has
Present-rooms_of u m [] v inside = tt
Present-rooms_of u m (r ∷ rs) v inside = (
  ground (arith, v.agree u r, inside r, eq_iff r r),
  Present-rooms_of u m rs v (λ j h. inside j (ground arith)),
)

-- The call in terms of the rooms of the user: the loop runs over them, and they are dropped.
module _ (u : Str) (m : RoomManager) where
  rooms-leave : (remove_user_from_all_rooms u m).0.rooms ≡ (leave_rooms u (rooms_of u m) m.rooms).0
  unfolding remove_user_from_all_rooms
  rooms-leave = ground arith

  left-leave : (remove_user_from_all_rooms u m).1 ≡ (leave_rooms u (rooms_of u m) m.rooms).1
  unfolding remove_user_from_all_rooms
  left-leave = ground arith

  get-user_rooms-leave :
      (v : Str)
      → Dict.get v (remove_user_from_all_rooms u m).0.user_rooms
        ≡ (if u == v then none else Dict.get v m.user_rooms)
  unfolding remove_user_from_all_rooms
  get-user_rooms-leave v = ground (arith, eq_iff u v, Dict.Laws.get-delete u v m.user_rooms)

  pub max-leave : (remove_user_from_all_rooms u m).0.max_rooms_per_user ≡ m.max_rooms_per_user
  unfolding remove_user_from_all_rooms
  max-leave = ground arith

  user_keys-leave :
      Dict.Laws.IsUnique m.user_rooms
      → Dict.Laws.IsUnique (remove_user_from_all_rooms u m).0.user_rooms
  unfolding remove_user_from_all_rooms
  user_keys-leave h = ground (arith, Dict.Laws.delete-IsUnique u m.user_rooms h)

  pub rooms_of-leave :
      (v : Str)
      → rooms_of v (remove_user_from_all_rooms u m).0 ≡ (if u == v then [] else rooms_of v m)
  rooms_of-leave v = ground (arith, get-user_rooms-leave v)

  leave_keeps {ℓ} :
      (P : Dict.Dict Str RoomInfo → Type ℓ)
      → ((r : Str) (room : RoomInfo) (rooms : Dict.Dict Str RoomInfo)
          → Dict.get r rooms ≡ some room
          → P rooms
          → P (store_room r (drop_member u room) rooms))
      → P m.rooms
      → P (remove_user_from_all_rooms u m).0.rooms
  leave_keeps P step h = rw rooms-leave (leave_rooms_induction P u step (rooms_of u m) m.rooms h)

  module _ (v : IsSynced m) where
    members_of-leave :
        (j : Str) → members_of j (remove_user_from_all_rooms u m).0 ≡ Sets.remove u (members_of j m)
    members_of-leave j = rw rooms-leave (
        ground (
          arith,
          members-leave_rooms u j (rooms_of u m) m.rooms (v.room_sets u),
          v.agree u j,
          Sets.remove_absent u (members_of j m),
        ))

    -- The answer lists the rooms that the user was in.
    removed_from-leave : (remove_user_from_all_rooms u m).1 ≡ rooms_of u m
    removed_from-leave = rw left-leave (
        left-leave_rooms u (rooms_of u m) m.rooms (v.room_sets u)
          (Present-rooms_of u m (rooms_of u m) v (λ r h. h)))

-- A room that stands is inhabited, and has its key as its id.
abbrev IsKept : Dict.Dict Str RoomInfo → Str → Type 0
IsKept rooms j =
    HasId j (Dict.get j rooms)
    × ((room : RoomInfo) → Dict.get j rooms ≡ some room → 1 ≤ length room.members)

store_room-IsKept :
    (u r j : Str) (room : RoomInfo) (rooms : Dict.Dict Str RoomInfo)
    → Dict.get r rooms ≡ some room
    → IsKept rooms j
    → IsKept (store_room r (drop_member u room) rooms) j
unfolding drop_member
store_room-IsKept u r j room rooms found k = (
  rw (get-store_room r j (drop_member u room) rooms) (ground (arith, eq_iff r j, k.0)),
  λ room' h. ground (arith, get-store_room r j (drop_member u room) rooms, k.1 room'),
)

-- `removeUserFromAllRooms` keeps the maps consistent.
pub leave-IsSynced :
    (u : Str) (m : RoomManager) → IsSynced m → IsSynced (remove_user_from_all_rooms u m).0
leave-IsSynced u m v = record {
  agree = λ u' r'.
      rw (members_of-leave u m v r', rooms_of-leave u m u')
        (ground
          (arith, Sets.has-remove u u' (members_of r' m), v.agree u' r', eq_iff u u', has_nil r'));
  rooms_inhabited = λ j. (kept j).1;
  users_inhabited = λ j s h. ground (arith, get-user_rooms-leave u m j, v.users_inhabited j s);
  ids = λ j. (kept j).0;
  member_sets = λ j.
      rw (members_of-leave u m v j) (Sets.remove-IsUnique u (members_of j m) (v.member_sets j));
  room_sets = λ j. rw (rooms_of-leave u m j) (ground (arith, v.room_sets j));
  room_keys =
      leave_keeps u m Dict.Laws.IsUnique
        (λ r room rooms found h. store_room-IsUnique r (drop_member u room) rooms h) v.room_keys;
  user_keys = user_keys-leave u m v.user_keys;
  bounded = λ j. rw (rooms_of-leave u m j, max-leave u m) (ground (arith, v.bounded j));
}
  where
    has_nil : (r : Str) → Sets.has r [] ≡ false
    has_nil r = unfold Sets.has in refl

    kept : (j : Str) → IsKept (remove_user_from_all_rooms u m).0.rooms j
    kept j =
        leave_keeps u m (λ rooms. IsKept rooms j)
          (λ r room rooms found h. store_room-IsKept u r j room rooms found h)
          (v.ids j, v.rooms_inhabited j)

-- From consistent maps, `removeUserFromAllRooms` answers the rooms that the user was in, takes the
-- user out of every room, and changes no other membership.
pub is_member-leave :
    (u u' r' : Str) (m : RoomManager)
    → IsSynced m
    → ((remove_user_from_all_rooms u m).1 ≡ rooms_of u m)
      × (is_member u' r' (remove_user_from_all_rooms u m).0 ≡ (not (u == u') && is_member u' r' m))
is_member-leave u u' r' m v = (
  removed_from-leave u m v,
  rw
      (
        is_member-has u' r' (remove_user_from_all_rooms u m).0,
        is_member-has u' r' m,
        members_of-leave u m v r',
      )
      (Sets.has-remove u u' (members_of r' m)),
)
