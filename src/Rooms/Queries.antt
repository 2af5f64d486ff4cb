-- ===== src/Rooms/Queries.antt =====
-- The read-only methods of src/core/RoomManager.ts.
use live_r.Base.{
  ◌≤◌, ◌≡◌, ◌⊎◌, arith, ltb, length, some, none, or_else, [], All, false, ◌↔◌, inl, inr,
  Option-cases, ap, ◌∙◌,
}
use live_r.Base.Text.{Str}
use live_r.Base.Equality.{str_eq}
use live_r.Base.Dict
use live_r.Base.Dict.Laws
use live_r.Base.Dict.Totals
use live_r.Base.Sets
use live_r.Rooms.{
  RoomInfo, RoomManager, has_room, get_member_count, get_members, get_rooms_for_user, get_room_info,
  is_member, room_count, get_all_rooms,
}
use live_r.Rooms.Invariant.{IsSynced}

-- From consistent maps: a room exists exactly while it counts a member, `getMembers` is defined
-- exactly then, and a member of it exists exactly if the room is among the user's rooms.
pub room_life :
    (u r : Str) (m : RoomManager)
    → IsSynced m
    → (has_room r m ≡ ltb 0 (get_member_count r m))
      × ((get_members r m ≡ none) ↔ (get_member_count r m ≡ 0))
      × (is_member u r m ≡ Sets.has r (or_else [] (get_rooms_for_user u m)))
unfolding has_room get_member_count get_members is_member get_rooms_for_user Sets.has
room_life u r m v = ground (arith, v.agree u r, room_pos)
  where
    room_pos : (has_room r m ≡ false) ⊎ (1 ≤ get_member_count r m)
    room_pos = elim (Option-cases (Dict.get r m.rooms)) [
      | inl missing ↦ inl (rw (missing))
      | inr (room, found) ↦ inr (rw (found, get_member_count) (v.rooms_inhabited r room found))
    ]

-- From consistent maps, `getAllRooms` lists `roomCount` rooms, each of which `getRoomInfo` finds
-- under its own id, with a member at least.
pub get_all_rooms-get_room_info :
    (m : RoomManager)
    → IsSynced m
    → (length (get_all_rooms m) ≡ room_count m)
      × All
          (λ room. (get_room_info room.id m ≡ some room) × (1 ≤ length room.members))
          (get_all_rooms m)
unfolding get_all_rooms room_count get_room_info
get_all_rooms-get_room_info m v = (
  Dict.Totals.length-values m.rooms,
  Dict.Laws.values-All (λ room. (get_room_info room.id m ≡ some room) × (1 ≤ length room.members))
      m.rooms v.room_keys (λ r room found. (own r room found, v.rooms_inhabited r room found)),
)
  where
    own :
        (r : Str) (room : RoomInfo)
        → Dict.get r m.rooms ≡ some room
        → get_room_info room.id m ≡ some room
    own r room found = ap (λ (k : Str). Dict.get k m.rooms) named ∙ found
      where
        named : room.id ≡ r
        named = ground (arith, v.ids r)
