-- ===== src/Presence/Users.antt =====
-- `getOnlineUsers` of src/redis/RedisPresence.ts.
use live_r.Base.{
  ℕ, ◌≡◌, min, true, not, ◌||◌, length, arith, if◌then◌else◌, nat_beq, zero, suc, ◌∙◌,
}
use live_r.Base.Text.{Str}
use live_r.Base.Equality.{str_eq}
use live_r.Base.Decimal.{sub_ℕ}
use live_r.Base.Sets
use live_r.Redis.{Redis, IsRedis, up_to}
use live_r.Presence.{presence_key, get_online_users, get_online_count, is_online}

up_to_limit : (limit n : ℕ) → up_to (sub_ℕ limit 1) n ≡ (if nat_beq limit 0 then n else min limit n)
up_to_limit zero n = ground arith
up_to_limit (suc limit) n = ground arith

-- Where Redis answers, `getOnlineUsers` names users who are online, each once, and as many as it is
-- asked for or there are; but asked for none it names all, since the place -1 is the last.
pub get_online_users_outcome :
    (r : Redis) (limit : ℕ) (user : Str) (st : r.Store)
    → IsRedis r
    → let users = get_online_users r true limit st in
      let count = get_online_count r true st in
      (length users ≡ (if nat_beq limit 0 then count else min limit count))
      × ((not (Sets.has user users) || is_online r true user st) ≡ true)
      × Sets.IsUnique users
unfolding get_online_users get_online_count is_online
get_online_users_outcome r limit user st R = (
  R.length-zrevrange presence_key (sub_ℕ limit 1) st
      ∙ up_to_limit limit (length (r.zmembers presence_key st))
      ∙ ground (arith, R.zcard_lem presence_key st),
  ground (
    arith,
    R.zrevrange_members presence_key user (sub_ℕ limit 1) st,
    R.zmembers_score presence_key user st,
  ),
  R.zrevrange_unique presence_key (sub_ℕ limit 1) st,
)
