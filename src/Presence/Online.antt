-- ===== src/Presence/Online.antt =====
-- src/redis/RedisPresence.ts: who is online after each call.
use live_r.Base.{
  ℕ, ◌+◌, ◌*◌, ◌≡◌, refl, ap, Bool, true, false, ◌&&◌, ◌||◌, not, List, [], ◌∷◌, Option, none, some,
  if◌then◌else◌, is_some, ltb, arith, ◌∙◌,
}
use live_r.Base.Text.{Str}
use live_r.Base.Equality.{str_eq, ◌==◌, eq_iff}
use live_r.Base.Decimal.{sub_ℕ, le_ℤ-sub_ℕ}
use live_r.Base.Sets
use live_r.Redis.{Redis, IsRedis, above}
use live_r.Presence.{
  presence_key, set_online, set_offline, is_online, clean_stale, remove_instance, zrem_each,
}

-- When a user was last set online; what a clean-up at a time leaves of it.
abbrev pub fresh : ℕ → Option ℕ → Bool
fresh now none = false
fresh now (some t) = ltb now (t + 60 * 1000)

fresh-above :
    (now : ℕ) (score : Option ℕ) → is_some (above (sub_ℕ now (60 * 1000)) score) ≡ fresh now score
fresh-above now none = refl
fresh-above now (some t) = ground (arith, le_ℤ-sub_ℕ t now (60 * 1000))

module _ (r : Redis) (laws : IsRedis r) where
  abbrev pub last_seen : Str → r.Store → Option ℕ
  last_seen user st = r.zscore presence_key user st

  -- Setting a user online or offline decides for that user alone, and a clean-up keeps exactly those
  -- who were set online less than 60 seconds before. A call that Redis refuses changes nothing.
  pub online_after :
      (now : ℕ) (user other : Str) (connected : Bool) (st : r.Store)
      → (is_online r true other (set_online r connected now user st)
          ≡ ((connected && user == other) || is_online r true other st))
        × (is_online r true other (set_offline r connected user st)
            ≡ (not (connected && user == other) && is_online r true other st))
        × (is_online r true other (clean_stale r connected now st).0
            ≡ (if connected then fresh now (last_seen other st) else is_online r true other st))
  unfolding is_online set_online set_offline clean_stale
  online_after now user other false st = (refl, refl, refl)
  online_after now user other true st = (
    ground (
      arith,
      laws.zscore-zadd presence_key presence_key user other now st,
      eq_iff presence_key presence_key,
    ),
    ground (
      arith,
      laws.zscore-zrem presence_key presence_key user other st,
      eq_iff presence_key presence_key,
    ),
    ap is_some (
          laws.zscore-zremrangebyscore presence_key presence_key other (sub_ℕ now (60 * 1000)) st
          ∙ ground (arith, eq_iff presence_key presence_key))
        ∙ fresh-above now (last_seen other st),
  )

  -- The shutdown of an instance takes its users offline and no others.
  pub online-remove_instance :
      (users : List Str) (other : Str) (st : r.Store)
      → is_online r true other (remove_instance r true users st)
        ≡ (not (Sets.has other users) && is_online r true other st)
  unfolding is_online remove_instance zrem_each Sets.has
  online-remove_instance [] other st = refl
  online-remove_instance (user ∷ users) other st =
      online-remove_instance users other (r.zrem presence_key user st)
      ∙ ground (
        arith,
        laws.zscore-zrem presence_key presence_key user other st,
        eq_iff presence_key presence_key,
      )
