-- ===== src/Rooms/Unsubscribe.antt =====
-- `unsubscribe` of src/core/RoomManager.ts.
use live_r.Base.{◌≡◌, false, ◌&&◌, none, some, arith, if◌then◌else◌, not, Option-cases, inl, inr}
use live_r.Base.Text.{Str}
use live_r.Base.Equality.{str_eq, ◌==◌, eq_iff}
use live_r.Base.Dict
use live_r.Base.Sets
use live_r.Rooms.{RoomInfo, RoomManager, unsubscribe, is_member, drop_member}
use live_r.Rooms.Invariant.{
  IsSynced, members_of, rooms_of, is_member-has, get-store_room, get-store_set, store_room-IsUnique,
  store_set-IsUnique, kept_room, kept_set,
}

pub unsubscribe_missing :
    (u r : Str) (m : RoomManager) → Dict.get r m.rooms ≡ none → unsubscribe u r m ≡ (m, false)
unfolding unsubscribe
unsubscribe_missing u r m h = rw (h, unsubscribe)

is_member_missing :
    (u r : Str) (m : RoomManager) → Dict.get r m.rooms ≡ none → is_member u r m ≡ false
unfolding is_member
is_member_missing u r m h = rw (h, is_member)

module _ (u r : Str) (m : RoomManager) (room : RoomInfo)
    (found : Dict.get r m.rooms ≡ some room) where
  get-rooms-unsubscribe :
      (j : Str)
      → Dict.get j (unsubscribe u r m).0.rooms
        ≡ (if r == j then kept_room (drop_member u room) else Dict.get j m.rooms)
  unfolding unsubscribe
  get-rooms-unsubscribe j =
      rw (found, unsubscribe) (get-store_room r j (drop_member u room) m.rooms)

  get-user_rooms-unsubscribe :
      (v : Str)
      → Dict.get v (unsubscribe u r m).0.user_rooms
        ≡ (if u == v then kept_set (Sets.remove r (rooms_of u m)) else Dict.get v m.user_rooms)
  unfolding unsubscribe Sets.remove
  get-user_rooms-unsubscribe v =
      rw (found, unsubscribe)
        (ground (arith, eq_iff u v, get-store_set u v (Sets.remove r (rooms_of u m)) m.user_rooms))

  pub members_of-unsubscribe :
      (j : Str)
      → members_of j (unsubscribe u r m).0
        ≡ (if r == j then Sets.remove u (members_of r m) else members_of j m)
  unfolding drop_member
  members_of-unsubscribe j = ground (arith, get-rooms-unsubscribe j)

  pub rooms_of-unsubscribe :
      (v : Str)
      → rooms_of v (unsubscribe u r m).0
        ≡ (if u == v then Sets.remove r (rooms_of u m) else rooms_of v m)
  rooms_of-unsubscribe v = ground (arith, get-user_rooms-unsubscribe v)

  unsubscribed-IsSynced : IsSynced m → IsSynced (unsubscribe u r m).0
  unfolding unsubscribe
  unsubscribed-IsSynced v = record {
    agree = λ u' r'.
        rw (members_of-unsubscribe r', rooms_of-unsubscribe u')
          (ground (
            arith,
            Sets.has-remove u u' (members_of r m),
            Sets.has-remove r r' (rooms_of u m),
            v.agree u' r',
            v.agree u' r,
            v.agree u r',
            v.agree u r,
            eq_iff u u',
            eq_iff r r',
          ));
    rooms_inhabited =
        λ j room' h. ground (arith, get-rooms-unsubscribe j, v.rooms_inhabited j room');
    users_inhabited = λ j s h. ground (arith, get-user_rooms-unsubscribe j, v.users_inhabited j s);
    ids = λ j. rw (get-rooms-unsubscribe j) (ground (arith, eq_iff r j, v.ids j, v.ids r));
    member_sets = λ j. rw (members_of-unsubscribe j) (
        ground (arith, Sets.remove-IsUnique u (members_of r m) (v.member_sets r), v.member_sets j));
    room_sets = λ j.
        rw (rooms_of-unsubscribe j)
          (ground (arith, Sets.remove-IsUnique r (rooms_of u m) (v.room_sets u), v.room_sets j));
    room_keys =
        rw (found, unsubscribe) (store_room-IsUnique r (drop_member u room) m.rooms v.room_keys);
    user_keys =
        rw (found, unsubscribe)
          (ground
            (arith, store_set-IsUnique u (Sets.remove r (rooms_of u m)) m.user_rooms v.user_keys));
    bounded = λ j. rw (rooms_of-unsubscribe j) (
        ground
          (arith, Sets.length-remove r (rooms_of u m) (v.room_sets u), v.bounded j, v.bounded u));
  }

-- `unsubscribe` keeps the maps consistent, whether or not the room is there.
pub unsubscribe-IsSynced :
    (u r : Str) (m : RoomManager) → IsSynced m → IsSynced (unsubscribe u r m).0
unsubscribe-IsSynced u r m v = elim (Option-cases (Dict.get r m.rooms)) [
  | inl missing ↦ rw (unsubscribe_missing u r m missing) v
  | inr (room, found) ↦ unsubscribed-IsSynced u r m room found v
]

-- `unsubscribe` answers whether the user was in the room, and takes away that pair and no other.
pub is_member-unsubscribe :
    (u r u' r' : Str) (m : RoomManager)
    → ((unsubscribe u r m).1 ≡ is_member u r m)
      × (is_member u' r' (unsubscribe u r m).0 ≡ (is_member u' r' m && not (u == u' && r == r')))
is_member-unsubscribe u r u' r' m = elim (Option-cases (Dict.get r m.rooms)) [
  | inl missing ↦ (
    rw (unsubscribe_missing u r m missing) (unfold is_member in rw (missing, is_member)),
    rw (unsubscribe_missing u r m missing)
        (ground (arith, eq_iff u u', eq_iff r r', is_member_missing u' r m missing)),
  )
  | inr (room, found) ↦ (
    unfold unsubscribe is_member in rw (found, unsubscribe, is_member),
    rw
        (
          is_member-has u' r' (unsubscribe u r m).0,
          is_member-has u' r' m,
          members_of-unsubscribe u r m room found r',
        )
        (ground (arith, Sets.has-remove u u' (members_of r m), eq_iff r r')),
  )
]
