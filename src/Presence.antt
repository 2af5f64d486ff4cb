-- ===== src/Presence.antt =====
-- src/redis/RedisPresence.ts: who is online, as a sorted set in Redis with the time as score. The
-- `Bool` says whether Redis answered; the answer of the `catch` branch is written out.
pub mod Online
pub mod Users
mod Examples
use live_r.Base.{
  ℕ, ◌*◌, ◌-◌, Bool, true, false, List, [], ◌∷◌, ◌++◌, Option, if◌then◌else◌, is_some,
}
use live_r.Base.Text.{Str, codes}
use live_r.Base.Decimal.{sub_ℕ}
use live_r.Redis.{Redis}

abbrev pub presence_key : Str
presence_key = codes "presence:online"

abbrev pub stale_threshold_sec : ℕ
stale_threshold_sec = 60

module _ (r : Redis) where
  unfoldable pub set_online : Bool → ℕ → Str → r.Store → r.Store
  set_online connected now user_id st = if connected then r.zadd presence_key now user_id st else st

  unfoldable pub set_offline : Bool → Str → r.Store → r.Store
  set_offline connected user_id st = if connected then r.zrem presence_key user_id st else st

  unfoldable pub is_online : Bool → Str → r.Store → Bool
  is_online connected user_id st =
      if connected then is_some (r.zscore presence_key user_id st) else false

  unfoldable pub get_online_count : Bool → r.Store → ℕ
  get_online_count connected st = if connected then r.zcard presence_key st else 0

  -- redis.zrevrange(PRESENCE_KEY, 0, limit - 1)
  unfoldable pub get_online_users : Bool → ℕ → r.Store → List Str
  get_online_users connected limit st =
      if connected then r.zrevrange presence_key (sub_ℕ limit 1) st else []

  unfoldable pub refresh_presence : Bool → ℕ → Str → r.Store → r.Store
  unfolding set_online
  refresh_presence = set_online

  -- The number removed is the difference of the sizes.
  unfoldable pub clean_stale : Bool → ℕ → r.Store → r.Store × ℕ
  clean_stale connected now st =
      if connected
      then (let st' = r.zremrangebyscore presence_key (sub_ℕ now (stale_threshold_sec * 1000)) st in
          (st', r.zcard presence_key st - r.zcard presence_key st'))
      else (st, 0)

  zrem_each : List Str → r.Store → r.Store
  zrem_each [] st = st
  zrem_each (user_id ∷ rest) st = zrem_each rest (r.zrem presence_key user_id st)

  unfoldable pub remove_instance : Bool → List Str → r.Store → r.Store
  unfolding zrem_each
  remove_instance connected user_ids st = if connected then zrem_each user_ids st else st
