-- ===== src/Rooms/Subscribe.antt =====
-- `subscribe` of src/core/RoomManager.ts.
use live_r.Base.{
  ℕ, ◌≤◌, ◌≡◌, true, false, ◌&&◌, ◌||◌, some, or_else, length, arith, if◌then◌else◌, leb,
  Bool-cases, inl, inr, not,
}
use live_r.Base.Text.{Str}
use live_r.Base.Equality.{str_eq, ◌==◌, eq_iff}
use live_r.Base.Dict
use live_r.Base.Dict.Laws
use live_r.Base.Sets
use live_r.Rooms.{RoomManager, at_limit, subscribe, is_member, new_room, add_member}
use live_r.Rooms.Invariant.{IsSynced, members_of, rooms_of, is_member-has}

-- Both maps after a call that is not refused.
module _ (now : ℕ) (u r : Str) (m : RoomManager)
    (free : at_limit (Dict.get u m.user_rooms) m.max_rooms_per_user ≡ false) where
  get-rooms-subscribe :
      (j : Str)
      → Dict.get j (subscribe now u r m).0.rooms ≡ (
          if r == j
          then some (add_member u (or_else (new_room now r) (Dict.get r m.rooms)))
          else Dict.get j m.rooms)
  unfolding subscribe
  get-rooms-subscribe j = ground (
    arith,
    Dict.Laws.get-set r j (add_member u (or_else (new_room now r) (Dict.get r m.rooms))) m.rooms,
  )

  get-user_rooms-subscribe :
      (j : Str)
      → Dict.get j (subscribe now u r m).0.user_rooms
        ≡ (if u == j then some (Sets.add r (rooms_of u m)) else Dict.get j m.user_rooms)
  unfolding subscribe
  get-user_rooms-subscribe j =
      ground (arith, Dict.Laws.get-set u j (Sets.add r (rooms_of u m)) m.user_rooms)

  pub members_of-subscribe :
      (j : Str)
      → members_of j (subscribe now u r m).0
        ≡ (if r == j then Sets.add u (members_of r m) else members_of j m)
  unfolding add_member new_room
  members_of-subscribe j = ground (arith, get-rooms-subscribe j)

  pub rooms_of-subscribe :
      (v : Str)
      → rooms_of v (subscribe now u r m).0
        ≡ (if u == v then Sets.add r (rooms_of u m) else rooms_of v m)
  rooms_of-subscribe v = ground (arith, get-user_rooms-subscribe v)

-- A refused call changes nothing.
pub subscribe_refused :
    (now : ℕ) (u r : Str) (m : RoomManager)
    → at_limit (Dict.get u m.user_rooms) m.max_rooms_per_user ≡ true
    → subscribe now u r m ≡ (m, false)
unfolding subscribe
subscribe_refused now u r m h = rw h

subscribed-IsSynced :
    (now : ℕ) (u r : Str) (m : RoomManager)
    → at_limit (Dict.get u m.user_rooms) m.max_rooms_per_user ≡ false
    → 1 ≤ m.max_rooms_per_user
    → IsSynced m
    → IsSynced (subscribe now u r m).0
unfolding subscribe
subscribed-IsSynced now u r m free pos v = record {
  agree = λ u' r'.
      rw (members_of-subscribe now u r m free r', rooms_of-subscribe now u r m free u')
        (ground (
          arith,
          Sets.has-add u u' (members_of r m),
          Sets.has-add r r' (rooms_of u m),
          v.agree u' r',
          v.agree u' r,
          v.agree u r',
          v.agree u r,
          eq_iff u u',
          eq_iff r r',
        ));
  rooms_inhabited = λ j room h. ground (
    arith,
    get-rooms-subscribe now u r m free j,
    Sets.add-pos u (members_of r m),
    v.rooms_inhabited j room,
  );
  users_inhabited = λ j s h. ground (
    arith,
    get-user_rooms-subscribe now u r m free j,
    Sets.add-pos r (rooms_of u m),
    v.users_inhabited j s,
  );
  ids =
      λ j. rw (get-rooms-subscribe now u r m free j) (ground (arith, eq_iff r j, v.ids j, v.ids r));
  member_sets = λ j.
      rw (members_of-subscribe now u r m free j)
        (ground (arith, Sets.add-IsUnique u (members_of r m) (v.member_sets r), v.member_sets j));
  room_sets = λ j.
      rw (rooms_of-subscribe now u r m free j)
        (ground (arith, Sets.add-IsUnique r (rooms_of u m) (v.room_sets u), v.room_sets j));
  room_keys = ground (
    arith,
    Dict.Laws.set-IsUnique r (add_member u (or_else (new_room now r) (Dict.get r m.rooms))) m.rooms
        v.room_keys,
  );
  user_keys =
      ground (arith, Dict.Laws.set-IsUnique u (Sets.add r (rooms_of u m)) m.user_rooms v.user_keys);
  bounded = λ j.
      rw (rooms_of-subscribe now u r m free j)
        (ground (arith, Sets.length-add r (rooms_of u m), v.bounded j, v.bounded u));
}

-- `subscribe` keeps the maps consistent and the rooms of a user within the limit, also where it
-- refuses.
pub subscribe-IsSynced :
    (now : ℕ) (u r : Str) (m : RoomManager)
    → 1 ≤ m.max_rooms_per_user
    → IsSynced m
    → IsSynced (subscribe now u r m).0
subscribe-IsSynced now u r m pos v =
    elim (Bool-cases (at_limit (Dict.get u m.user_rooms) m.max_rooms_per_user)) [
      | inl full ↦ rw (subscribe_refused now u r m full) v
      | inr free ↦ subscribed-IsSynced now u r m free pos v
    ]

-- For a limit of at least one room, what `subscribe` does to every membership: it answers `false`
-- and changes none if the user holds the limit of rooms already, even for a room that the user is
-- in; else it answers `true` and adds the one pair.
pub is_member-subscribe :
    (now : ℕ) (u r u' r' : Str) (m : RoomManager)
    → 1 ≤ m.max_rooms_per_user
    → let full = leb m.max_rooms_per_user (length (rooms_of u m)) in
      ((subscribe now u r m).1 ≡ not full)
      × (is_member u' r' (subscribe now u r m).0
          ≡ (is_member u' r' m || (not full && (u == u' && r == r'))))
is_member-subscribe now u r u' r' m pos =
    elim (Bool-cases (at_limit (Dict.get u m.user_rooms) m.max_rooms_per_user)) [
      | inl full ↦ rw (subscribe_refused now u r m full) (unfold at_limit in ground arith)
      | inr free ↦ (
        unfold subscribe at_limit in ground arith,
        rw
            (
              is_member-has u' r' (subscribe now u r m).0,
              is_member-has u' r' m,
              members_of-subscribe now u r m free r',
            )
            (unfold at_limit in ground (arith, Sets.has-add u u' (members_of r m), eq_iff r r')),
      )
    ]
