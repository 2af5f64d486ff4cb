-- ===== src/Rooms/Invariant.antt =====
-- src/core/RoomManager.ts: the consistency of its two maps.
use live_r.Base.{
  ℕ, false, ◌≤◌, ◌≡◌, refl, List, [], ◌∷◌, Option, none, some, or_else, length, arith,
  if◌then◌else◌,
}
use live_r.Base.Text.{Str}
use live_r.Base.Equality.{str_eq, ◌==◌}
use live_r.Base.Dict
use live_r.Base.Dict.Laws
use live_r.Base.Sets
use live_r.Rooms.{RoomInfo, RoomManager, create, store_room, store_set, is_member, get_member_count}

abbrev pub members : Option RoomInfo → List Str
members none = []
members (some room) = room.members

-- The members of a room and the rooms of a user, empty where the map has no entry.
abbrev pub members_of : Str → RoomManager → List Str
members_of r m = members (Dict.get r m.rooms)

abbrev pub rooms_of : Str → RoomManager → List Str
rooms_of u m = or_else [] (Dict.get u m.user_rooms)

abbrev pub HasId : Str → Option RoomInfo → Type 0
HasId r none = Unit
HasId r (some room) = room.id ≡ r

pub record IsSynced (m : RoomManager) : Type 0 where
  -- The two maps tell the same pairs.
  pub agree : (u r : Str) → Sets.has u (members_of r m) ≡ Sets.has r (rooms_of u m)
  -- No entry is left empty.
  pub rooms_inhabited :
      (r : Str) (room : RoomInfo) → Dict.get r m.rooms ≡ some room → 1 ≤ length room.members
  pub users_inhabited : (u : Str) (s : List Str) → Dict.get u m.user_rooms ≡ some s → 1 ≤ length s
  -- A room stands under its own id.
  pub ids : (r : Str) → HasId r (Dict.get r m.rooms)
  -- Sets and maps repeat nothing.
  pub member_sets : (r : Str) → Sets.IsUnique (members_of r m)
  pub room_sets : (u : Str) → Sets.IsUnique (rooms_of u m)
  pub room_keys : Dict.Laws.IsUnique m.rooms
  pub user_keys : Dict.Laws.IsUnique m.user_rooms
  -- The limit on the rooms of a user.
  pub bounded : (u : Str) → length (rooms_of u m) ≤ m.max_rooms_per_user

pub create-IsSynced : (max : ℕ) → IsSynced (create max)
unfolding create Dict.get Sets.has
create-IsSynced max = record {
  agree = λ u r. refl;
  rooms_inhabited = λ r room h. ground arith;
  users_inhabited = λ u s h. ground arith;
  ids = λ r. tt;
  member_sets = λ r. tt;
  room_sets = λ u. tt;
  room_keys = tt;
  user_keys = tt;
  bounded = λ u. omega arith;
}

-- What `store_room` and `store_set` leave under their key: nothing, if it would be empty.
abbrev pub kept_room : RoomInfo → Option RoomInfo
kept_room room = elim room.members [ [] ↦ none | u ∷ us ↦ some room ]

abbrev pub kept_set : List Str → Option (List Str)
kept_set [] = none
kept_set (r ∷ rs) = some (r ∷ rs)

pub get-store_room :
    (r j : Str) (room : RoomInfo) (rooms : Dict.Dict Str RoomInfo)
    → Dict.get j (store_room r room rooms) ≡ (if r == j then kept_room room else Dict.get j rooms)
unfolding store_room
get-store_room r j room rooms =
    ground (arith, Dict.Laws.get-delete r j rooms, Dict.Laws.get-set r j room rooms)

pub get-store_set :
    (u j : Str) (s : List Str) (users : Dict.Dict Str (List Str))
    → Dict.get j (store_set u s users) ≡ (if u == j then kept_set s else Dict.get j users)
unfolding store_set
get-store_set u j [] users = Dict.Laws.get-delete u j users
get-store_set u j (r ∷ rs) users = Dict.Laws.get-set u j (r ∷ rs) users

pub members-store_room :
    (r j : Str) (room : RoomInfo) (rooms : Dict.Dict Str RoomInfo)
    → members (Dict.get j (store_room r room rooms))
      ≡ (if r == j then room.members else members (Dict.get j rooms))
members-store_room r j room rooms = ground (arith, get-store_room r j room rooms)

pub store_room-IsUnique :
    (r : Str) (room : RoomInfo) (rooms : Dict.Dict Str RoomInfo)
    → Dict.Laws.IsUnique rooms
    → Dict.Laws.IsUnique (store_room r room rooms)
unfolding store_room
store_room-IsUnique r room rooms h =
    ground (arith, Dict.Laws.delete-IsUnique r rooms h, Dict.Laws.set-IsUnique r room rooms h)

pub store_set-IsUnique :
    (u : Str) (s : List Str) (users : Dict.Dict Str (List Str))
    → Dict.Laws.IsUnique users
    → Dict.Laws.IsUnique (store_set u s users)
unfolding store_set
store_set-IsUnique u [] users h = Dict.Laws.delete-IsUnique u users h
store_set-IsUnique u (r ∷ rs) users h = Dict.Laws.set-IsUnique u (r ∷ rs) users h

pub is_member-has : (u r : Str) (m : RoomManager) → is_member u r m ≡ Sets.has u (members_of r m)
unfolding is_member Sets.has
is_member-has u r m = ground arith

pub get_member_count-length :
    (r : Str) (m : RoomManager) → get_member_count r m ≡ length (members_of r m)
unfolding get_member_count
get_member_count-length r m = ground arith

-- A room that is not there has no member.
pub has-rooms_of :
    (u r : Str) (m : RoomManager)
    → IsSynced m
    → Dict.get r m.rooms ≡ none
    → Sets.has r (rooms_of u m) ≡ false
unfolding Sets.has
has-rooms_of u r m v h = ground (arith, v.agree u r)
