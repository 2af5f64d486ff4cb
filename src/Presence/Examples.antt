-- ===== src/Presence/Examples.antt =====
-- Instances for src/redis/RedisPresence.ts, in a Redis in memory.
use live_r.Base.{◌≡◌, true, ◌&&◌, ◌||◌, not, [], ◌∷◌, if◌then◌else◌, length, nat_beq, min}
use live_r.Base.Text.{Str, codes}
use live_r.Base.Equality.{str_eq, ◌==◌}
use live_r.Base.Sets
use live_r.Redis.Memory.{memory, memory-IsRedis, empty}
use live_r.Presence.{
  set_online, set_offline, is_online, clean_stale, remove_instance, get_online_users,
  get_online_count,
}
use live_r.Presence.Users.{get_online_users_outcome}
use live_r.Presence.Online.{fresh, last_seen, online_after, online-remove_instance}

abbrev ann : Str
ann = codes "ann"

-- Ann has been online since the time 5.
abbrev store : memory.Store
store = set_online memory true 5 ann empty

online_after_example :
    (is_online memory true (codes "bob") (set_online memory true 70000 ann store)
      ≡ ((true && ann == codes "bob") || is_online memory true (codes "bob") store))
    × (is_online memory true (codes "bob") (set_offline memory true ann store)
        ≡ (not (true && ann == codes "bob") && is_online memory true (codes "bob") store))
    × (is_online memory true (codes "bob") (clean_stale memory true 70000 store).0 ≡ (
        if true
        then fresh 70000 (last_seen memory memory-IsRedis (codes "bob") store)
        else is_online memory true (codes "bob") store))
online_after_example = online_after memory memory-IsRedis 70000 ann (codes "bob") true store

online-remove_instance_instance :
    is_online memory true ann (remove_instance memory true (codes "bob" ∷ []) store)
    ≡ (not (Sets.has ann (codes "bob" ∷ [])) && is_online memory true ann store)
online-remove_instance_instance =
    online-remove_instance memory memory-IsRedis (codes "bob" ∷ []) ann store

get_online_users_outcome_example :
    let users = get_online_users memory true 0 store in
    let count = get_online_count memory true store in
    (length users ≡ (if nat_beq 0 0 then count else min 0 count))
    × ((not (Sets.has ann users) || is_online memory true ann store) ≡ true)
    × Sets.IsUnique users
get_online_users_outcome_example = get_online_users_outcome memory 0 ann store memory-IsRedis
