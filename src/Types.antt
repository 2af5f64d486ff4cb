-- ===== src/Types.antt =====
-- src/types/connection.ts, and what the handlers do outside their own state. A WebSocket is an
-- object: it is named by a number, its identity, and a heap holds the `UserData` of each.
use live_r.Base.{ℕ, ◌≡◌, List, [], ◌∷◌, ◌++◌, ◌+◌, to_nat, arith}
use live_r.Base.Text.{Str}
use live_r.Base.Equality.{nat_eq, str_eq, ◌==◌}

pub record UserData : Type 0 where
  pub user_id : Str
  pub connection_id : Str
  pub rooms : List Str
  pub permissions : List Str
  pub connected_at : ℕ
  pub last_pong : ℕ

abbrev pub Ws : Type 0
Ws = ℕ

-- ws.getUserData()
abbrev pub Heap : Type 0
Heap = Ws → UserData

pub record ConnectionStats : Type 0 where
  pub total : ℕ
  pub unique_users : ℕ

-- The calls on uWebSockets.js and on the Redis components, in the order in which the code makes
-- them. Those on Redis are not awaited (`void redisPubSub…`).
pub data Effect : Type 0 where
  -- ws.send(payload, false)
  send : Ws → Str → Effect
  -- ws.end(code, message)
  end : Ws → ℕ → Str → Effect
  -- ws.subscribe(topic), ws.unsubscribe(topic)
  subscribe unsubscribe : Ws → Str → Effect
  -- ws.publish(topic, payload, false)
  publish : Ws → Str → Str → Effect
  -- app.publish(topic, payload, false)
  publish_app : Str → Str → Effect
  -- publisher.publish(channel, message)
  publish_redis : Str → Str → Effect
  -- redisPubSub.subscribeChannel(channel)
  subscribe_channel : Str → Effect
  -- redisPresence.setOnline(userId), setOffline(userId)
  set_online set_offline : Str → Effect
  -- redisRoomSync.addMember(roomId, userId), removeMember(roomId, userId)
  add_member remove_member : Str → Str → Effect
  -- redisRoomSync.removeUserFromAllRooms(userId)
  remove_from_all_rooms : Str → Effect

-- How often a socket is sent a payload directly, and how often it is ended.
abbrev pub sends_to : Ws → List Effect → ℕ
sends_to w [] = 0
sends_to w (send v payload ∷ es) = to_nat (v == w) + sends_to w es
sends_to w (e ∷ es) = sends_to w es

abbrev pub ends_of : Ws → List Effect → ℕ
ends_of w [] = 0
ends_of w (end v code message ∷ es) = to_nat (v == w) + ends_of w es
ends_of w (e ∷ es) = ends_of w es

-- How often a payload goes to a topic of the app.
abbrev pub publishes_to : Str → List Effect → ℕ
publishes_to topic [] = 0
publishes_to topic (publish_app t payload ∷ es) = to_nat (t == topic) + publishes_to topic es
publishes_to topic (e ∷ es) = publishes_to topic es

pub sends_to-append :
    (w : Ws) (es fs : List Effect) → sends_to w (es ++ fs) ≡ sends_to w es + sends_to w fs
sends_to-append w [] fs = omega arith
sends_to-append w (send v payload ∷ es) fs = omega (arith, sends_to-append w es fs)
sends_to-append w (e ∷ es) fs = omega (arith, sends_to-append w es fs)
