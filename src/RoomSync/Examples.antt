-- ===== src/RoomSync/Examples.antt =====
-- Instances for src/redis/RedisRoomSync.ts, in a Redis in memory.
use live_r.Base.{◌≡◌, ◌≤◌, refl, true, false, ◌&&◌, not, List, [], ◌∷◌, length, arith}
use live_r.Base.Text.{Str, codes}
use live_r.Base.Equality.{str_eq, str_beq, ◌==◌}
use live_r.Base.Sets
use live_r.Redis.Memory.{memory, memory-IsRedis, empty}
use live_r.RoomSync.{
  members_key, rooms_key, add_member, get_user_rooms, is_member, ask_rooms, rooms_answered,
}
use live_r.RoomSync.Mirror.{IsMirrored, has-add_member}
use live_r.RoomSync.History.{Call, adds, leaves, run, left_behind}

abbrev ann : Str
ann = codes "ann"

abbrev news : Str
news = codes "news"

abbrev chat : Str
chat = codes "chat"

empty-IsMirrored : IsMirrored memory memory-IsRedis empty
unfolding memory empty Sets.has
empty-IsMirrored room user = refl

-- Ann and bob join, ann's second room is refused by Redis, and ann leaves the first.
abbrev calls : List Call
calls =
    adds true news ann
    ∷ adds true news (codes "bob")
    ∷ adds false chat ann
    ∷ leaves true ann (news ∷ [])
    ∷ []

-- Ann is in a room.
abbrev joined : memory.Store
joined = add_member memory true news ann empty

joined-IsMirrored : IsMirrored memory memory-IsRedis joined
joined-IsMirrored room user =
    let h = has-add_member memory memory-IsRedis news ann room user empty in
    ground (arith, h.0, h.1, empty-IsMirrored room user)

ann_asked : 1 ≤ length (ask_rooms memory ann joined)
unfolding add_member members_key rooms_key ask_rooms memory empty Sets.has Sets.add str_beq
ann_asked = omega arith

-- She joins another while she leaves all.
left_behind_example :
    let between = run memory (adds true chat ann ∷ []) joined in
    let (after, rooms) = rooms_answered memory true ann (ask_rooms memory ann joined) between in
    (rooms ≡ get_user_rooms memory true ann joined)
    × (is_member memory true chat ann after ≡ (
        is_member memory true chat ann between
        && not (ann == ann && is_member memory true chat ann joined)))
    × (Sets.has chat (get_user_rooms memory true ann after)
        ≡ (not (ann == ann) && Sets.has chat (get_user_rooms memory true ann between)))
left_behind_example =
    left_behind memory memory-IsRedis (adds true chat ann ∷ []) joined ann chat ann
      joined-IsMirrored ann_asked
