-- ===== src/RoomSync.antt =====
-- src/redis/RedisRoomSync.ts: the members of each room and the rooms of each user, as sets in Redis.
-- A pipeline runs in one piece, or is rejected, and then nothing of it has run: the `Bool` says
-- which. The answer of the `catch` branch is written out.
pub mod Mirror
pub mod History
mod Examples
use live_r.Base.{ℕ, Bool, true, false, ◌&&◌, List, [], ◌∷◌, ◌++◌, if◌then◌else◌, nat_beq}
use live_r.Base.Text.{Str, codes}
use live_r.Redis.{Redis}

-- `room:${roomId}:members`
unfoldable pub members_key : Str → Str
members_key room_id = codes "room:" ++ (room_id ++ codes ":members")

-- `user:${userId}:rooms`
unfoldable pub rooms_key : Str → Str
rooms_key user_id = codes "user:" ++ (user_id ++ codes ":rooms")

module _ (r : Redis) where
  unfoldable pub add_member : Bool → Str → Str → r.Store → r.Store
  unfolding members_key rooms_key
  add_member executed room_id user_id st =
      if executed
      then r.sadd (rooms_key user_id) room_id (r.sadd (members_key room_id) user_id st)
      else st

  unfoldable pub remove_member : Bool → Str → Str → r.Store → r.Store
  unfolding members_key rooms_key
  remove_member executed room_id user_id st =
      if executed
      then r.srem (rooms_key user_id) room_id (r.srem (members_key room_id) user_id st)
      else st

  unfoldable pub get_members : Bool → Str → r.Store → List Str
  get_members executed room_id st = if executed then r.smembers (members_key room_id) st else []

  unfoldable pub get_member_count : Bool → Str → r.Store → ℕ
  get_member_count executed room_id st = if executed then r.scard (members_key room_id) st else 0

  unfoldable pub get_user_rooms : Bool → Str → r.Store → List Str
  get_user_rooms executed user_id st = if executed then r.smembers (rooms_key user_id) st else []

  unfoldable pub is_member : Bool → Str → Str → r.Store → Bool
  is_member executed room_id user_id st =
      if executed then r.sismember (members_key room_id) user_id st else false

  -- The commands of the pipeline, one for each room.
  unfoldable pub srem_each : Str → List Str → r.Store → r.Store
  unfolding members_key
  srem_each user_id [] st = st
  srem_each user_id (room_id ∷ rest) st =
      srem_each user_id rest (r.srem (members_key room_id) user_id st)

  unfoldable pub leave : Str → List Str → r.Store → r.Store × List Str
  unfolding srem_each rooms_key
  leave user_id [] st = (st, [])
  leave user_id (room_id ∷ rest) st =
      (r.del (rooms_key user_id) (srem_each user_id (room_id ∷ rest) st), room_id ∷ rest)

  -- `removeUserFromAllRooms` awaits two commands, and `cleanEmptyRoom` too: each is what it asks first
  -- and what it does with the answer, at a later store. Where the first is rejected nothing follows.
  unfoldable pub ask_rooms : Str → r.Store → List Str
  unfolding rooms_key
  ask_rooms user_id st = r.smembers (rooms_key user_id) st

  unfoldable pub rooms_answered : Bool → Str → List Str → r.Store → r.Store × List Str
  unfolding leave
  rooms_answered executed user_id rooms st = if executed then leave user_id rooms st else (st, [])

  unfoldable pub ask_count : Str → r.Store → ℕ
  unfolding members_key
  ask_count room_id st = r.scard (members_key room_id) st

  unfoldable pub count_answered : Bool → Str → ℕ → r.Store → r.Store × Bool
  unfolding members_key
  count_answered executed room_id count st =
      if executed && nat_beq count 0 then (r.del (members_key room_id) st, true) else (st, false)
