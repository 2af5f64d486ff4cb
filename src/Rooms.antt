-- ===== src/Rooms.antt =====
-- src/core/RoomManager.ts: rooms with their members, and the rooms of each user. Users and rooms
-- are named by strings; `Date.now()` is an argument. The logger calls have no effect on the state.
pub mod Invariant
pub mod Subscribe
pub mod Unsubscribe
pub mod Leave
pub mod Relation
pub mod Queries
pub mod Equivalence
mod Examples
use live_r.Base.{
  ℕ, ◌≡◌, Bool, true, false, List, [], ◌∷◌, Option, none, some, leb, if◌then◌else◌, is_some,
  or_else, length,
}
use live_r.Base.Text.{Str}
use live_r.Base.Dict
use live_r.Base.Dict.{Dict}
use live_r.Base.Sets
use live_r.Base.Equality.{str_eq}

pub record RoomInfo : Type 0 where
  pub id : Str
  pub members : List Str
  pub created_at : ℕ

pub record RoomManager : Type 0 where
  pub rooms : Dict Str RoomInfo
  pub user_rooms : Dict Str (List Str)
  pub max_rooms_per_user : ℕ

-- new RoomManager(maxRoomsPerUser)
unfoldable pub create : ℕ → RoomManager
create max = record { rooms = []; user_rooms = []; max_rooms_per_user = max }

-- userRoomSet && userRoomSet.size >= this.maxRoomsPerUser
unfoldable pub at_limit : Option (List Str) → ℕ → Bool
at_limit none max = false
at_limit (some rooms) max = leb max (length rooms)

new_room : ℕ → Str → RoomInfo
new_room now room_id = record { id = room_id; members = []; created_at = now }

add_member : Str → RoomInfo → RoomInfo
add_member user_id room = record room { members = Sets.add user_id room.members }

drop_member : Str → RoomInfo → RoomInfo
drop_member user_id room = record room { members = Sets.remove user_id room.members }

unfoldable pub subscribe : ℕ → Str → Str → RoomManager → RoomManager × Bool
unfolding at_limit new_room add_member
subscribe now user_id room_id m =
    let user_room_set = Dict.get user_id m.user_rooms in
    if at_limit user_room_set m.max_rooms_per_user
    then (m, false)
    else let room = or_else (new_room now room_id) (Dict.get room_id m.rooms) in
      (
        record m {
          rooms = Dict.set room_id (add_member user_id room) m.rooms;
          user_rooms = Dict.set user_id (Sets.add room_id (or_else [] user_room_set)) m.user_rooms;
        },
        true,
      )

-- `map.set(key, set)`, or `map.delete(key)` where the set is empty.
unfoldable pub store_room : Str → RoomInfo → Dict Str RoomInfo → Dict Str RoomInfo
store_room room_id room rooms = elim room.members [
  | [] ↦ Dict.delete room_id rooms
  | u ∷ us ↦ Dict.set room_id room rooms
]

unfoldable pub store_set : Str → List Str → Dict Str (List Str) → Dict Str (List Str)
store_set user_id [] users = Dict.delete user_id users
store_set user_id (r ∷ rs) users = Dict.set user_id (r ∷ rs) users

-- The part of `unsubscribe` that updates the user's room set.
forget_room : Str → Str → Dict Str (List Str) → Dict Str (List Str)
unfolding store_set
forget_room user_id room_id users = elim (Dict.get user_id users) [
  | none ↦ users
  | some rooms ↦ store_set user_id (Sets.remove room_id rooms) users
]

unfoldable pub unsubscribe : Str → Str → RoomManager → RoomManager × Bool
unfolding store_room forget_room drop_member
unsubscribe user_id room_id m = elim (Dict.get room_id m.rooms) [
  | none ↦ (m, false)
  | some room ↦ (
    record m {
      rooms = store_room room_id (drop_member user_id room) m.rooms;
      user_rooms = forget_room user_id room_id m.user_rooms;
    },
    Sets.has user_id room.members,
  )
]

-- The loop of `removeUserFromAllRooms`: the rooms left to visit, then the state and `removedFrom`.
leave_rooms : Str → List Str → Dict Str RoomInfo → Dict Str RoomInfo × List Str
unfolding store_room drop_member
leave_rooms user_id [] rooms = (rooms, [])
leave_rooms user_id (r ∷ rs) rooms = elim (Dict.get r rooms) [
  | none ↦ leave_rooms user_id rs rooms
  | some room ↦
      let (rooms', left) = leave_rooms user_id rs (store_room r (drop_member user_id room) rooms) in
      (rooms', r ∷ left)
]

unfoldable pub remove_user_from_all_rooms : Str → RoomManager → RoomManager × List Str
unfolding leave_rooms
remove_user_from_all_rooms user_id m = elim (Dict.get user_id m.user_rooms) [
  | none ↦ (m, [])
  | some user_room_set ↦
      let (rooms', removed_from) = leave_rooms user_id user_room_set m.rooms in
      (record m { rooms = rooms'; user_rooms = Dict.delete user_id m.user_rooms }, removed_from)
]

unfoldable pub get_members : Str → RoomManager → Option (List Str)
get_members room_id m = elim (Dict.get room_id m.rooms) [
  | none ↦ none
  | some room ↦ some room.members
]

unfoldable pub get_member_count : Str → RoomManager → ℕ
get_member_count room_id m = elim (Dict.get room_id m.rooms) [
  | none ↦ 0
  | some room ↦ length room.members
]

unfoldable pub get_rooms_for_user : Str → RoomManager → Option (List Str)
get_rooms_for_user user_id m = Dict.get user_id m.user_rooms

unfoldable pub get_room_info : Str → RoomManager → Option RoomInfo
get_room_info room_id m = Dict.get room_id m.rooms

unfoldable pub get_all_rooms : RoomManager → List RoomInfo
get_all_rooms m = Dict.values m.rooms

unfoldable pub has_room : Str → RoomManager → Bool
has_room room_id m = Dict.has room_id m.rooms

unfoldable pub is_member : Str → Str → RoomManager → Bool
is_member user_id room_id m = elim (Dict.get room_id m.rooms) [
  | none ↦ false
  | some room ↦ Sets.has user_id room.members
]

unfoldable pub room_count : RoomManager → ℕ
room_count m = Dict.size m.rooms
