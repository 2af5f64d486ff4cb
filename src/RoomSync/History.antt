-- ===== src/RoomSync/History.antt =====
-- src/redis/RedisRoomSync.ts: its calls by several instances, interleaved, on one Redis.
use live_r.Base.{◌≡◌, ◌≤◌, refl, Bool, true, ◌&&◌, not, List, [], ◌∷◌, length, arith}
use live_r.Base.Text.{Str}
use live_r.Base.Equality.{str_eq, ◌==◌}
use live_r.Base.Sets
use live_r.Redis.{Redis, IsRedis}
use live_r.RoomSync.{
  members_key, rooms_key, add_member, remove_member, get_user_rooms, is_member, leave, ask_rooms,
  rooms_answered,
}
use live_r.RoomSync.Mirror.{IsMirrored, has-leave}

-- What is written, with whether Redis ran it. `leaves` is the second part of
-- `removeUserFromAllRooms`, with the rooms that the first part was answered at any earlier time.
-- `cleanEmptyRoom`, which nothing calls, is not among these.
pub data Call : Type 0 where
  adds removes : Bool → Str → Str → Call
  leaves : Bool → Str → List Str → Call

module _ (r : Redis) where
  unfoldable pub step : Call → r.Store → r.Store
  step (adds executed room user) st = add_member r executed room user st
  step (removes executed room user) st = remove_member r executed room user st
  step (leaves executed user rooms) st = (rooms_answered r executed user rooms st).0

  unfoldable pub run : List Call → r.Store → r.Store
  unfolding step
  run [] st = st
  run (c ∷ cs) st = run cs (step c st)

module _ (r : Redis) (laws : IsRedis r) where
  -- What the set of a user lists, the set of the room has.
  abbrev pub IsListed : r.Store → Type 0
  IsListed st =
      (room user : Str)
      → Sets.has room (r.smembers (rooms_key user) st) ≡ true
      → Sets.has user (r.smembers (members_key room) st) ≡ true

  -- `removeUserFromAllRooms` of a user who is in some room, where any calls come between its two
  -- commands, and the sets tell the same pairs at the first: it answers the rooms of the user at the
  -- first; after the second the user is still a member of exactly the rooms joined in between, of
  -- which `getUserRooms` lists none; other users are as they were.
  pub left_behind :
      (cs : List Call) (st : r.Store) (user room' user' : Str)
      → IsMirrored r laws st
      → 1 ≤ length (ask_rooms r user st)
      → let between = run r cs st in
        let (after, rooms) = rooms_answered r true user (ask_rooms r user st) between in
        (rooms ≡ get_user_rooms r true user st)
        × (is_member r true room' user' after ≡ (
            is_member r true room' user' between
            && not (user == user' && is_member r true room' user st)))
        × (Sets.has room' (get_user_rooms r true user' after)
            ≡ (not (user == user') && Sets.has room' (get_user_rooms r true user' between)))
  unfolding ask_rooms rooms_answered is_member get_user_rooms
  left_behind cs st user room' user' v some_room =
      let rooms = r.smembers (rooms_key user) st in
      let between = run r cs st in
      let left = has-leave r laws user rooms room' user' between some_room in
      (
        answered rooms between some_room,
        ground (
          arith,
          laws.sismember_lem (members_key room') user' (leave r user rooms between).0,
          laws.sismember_lem (members_key room') user' between,
          laws.sismember_lem (members_key room') user st,
          v room' user,
          left.0,
        ),
        left.1,
      )
    where
      answered :
          (rooms : List Str) (between : r.Store)
          → 1 ≤ length rooms
          → (leave r user rooms between).1 ≡ rooms
      answered [] between le = absurd (omega (arith, le))
      answered (room ∷ rooms) between le = unfold leave in refl
