-- ===== src/PubSub.antt =====
-- src/redis/RedisPubSub.ts: the channels between instances. A message that arrives is forwarded to
-- local sockets; `handle_message` returns the calls, and the count that the delivery callback is
-- called with, if it is called.
pub mod Channels
pub mod Subscriptions
mod Examples
use live_r.Base.{
  ℕ, Bool, true, false, List, [], ◌∷◌, ◌++◌, Option, none, some, ltb, if◌then◌else◌, or_else,
  length,
}
use live_r.Base.Text.{Str, codes, starts_with, slice, split_at}
use live_r.Base.Equality.{str_eq, ◌==◌}
use live_r.Base.Sets
use live_r.Types.{Effect, publish_app, publish_redis}
use live_r.Connections.{ConnectionManager, send_each, get_by_user_id, size}

abbrev pub broadcast_channel : Str
broadcast_channel = codes "channel:broadcast"

-- `channel:user:${userId}`
abbrev pub user_channel : Str → Str
user_channel user_id = codes "channel:user:" ++ user_id

-- `channel:room:${roomId}`
abbrev pub room_channel : Str → Str
room_channel room_id = codes "channel:room:" ++ room_id

-- What the promise of a `publish…` gives: the answer of Redis, or 0 where it refuses and the error is
-- logged. The router does not wait for it.
unfoldable pub publish_answered : Option ℕ → ℕ
publish_answered none = 0
publish_answered (some receivers) = receivers

unfoldable pub publish_to_user : Str → Str → List Effect
publish_to_user user_id message = publish_redis (user_channel user_id) message ∷ []

unfoldable pub publish_to_room : Str → Str → List Effect
publish_to_room room_id message = publish_redis (room_channel room_id) message ∷ []

unfoldable pub publish_broadcast : Str → List Effect
publish_broadcast message = publish_redis broadcast_channel message ∷ []

-- What the callback gets: nothing for nobody.
positive : ℕ → Option ℕ
positive n = if ltb 0 n then some n else none

unfoldable pub forward_to_user : Option Str → Str → ConnectionManager → List Effect × Option ℕ
unfolding positive
forward_to_user none message connections = ([], none)
forward_to_user (some []) message connections = ([], none)
forward_to_user (some (c ∷ user_id)) message connections =
    elim (get_by_user_id (c ∷ user_id) connections) [
      | none ↦ ([], none)
      | some user_conns ↦
          let (effects, forwarded) = send_each message user_conns 0 in (effects, positive forwarded)
    ]

-- `channel.split(':')[2]` for the channel of a user.
unfoldable pub handle_message : Str → Str → ConnectionManager → List Effect × Option ℕ
unfolding forward_to_user
handle_message channel message connections =
    if channel == broadcast_channel
    then (publish_app (codes "broadcast") message ∷ [], positive (size connections))
    else if starts_with channel (codes "channel:room:")
    then (publish_app (slice channel (length (codes "channel:room:"))) message ∷ [], none)
    else if starts_with channel (codes "channel:user:")
    then forward_to_user (split_at b':' channel 2) message connections
    else ([], none)

-- The set of channels that the instance is subscribed to. `subscribeChannel` asks Redis for a
-- channel that is not in it, and adds it when Redis has answered.
pub record RedisPubSub : Type 0 where
  pub subscribed_channels : List Str

unfoldable pub wants_subscribe : Str → RedisPubSub → Bool
wants_subscribe channel p = if Sets.has channel p.subscribed_channels then false else true

unfoldable pub wants_unsubscribe : Str → RedisPubSub → Bool
wants_unsubscribe channel p = Sets.has channel p.subscribed_channels

-- The answer to `subscriber.subscribe(channel)`, `unsubscribe(channel)`: whether it was resolved.
unfoldable pub subscribe_answered : Str → Bool → RedisPubSub → RedisPubSub
subscribe_answered channel true p = record {
  subscribed_channels = Sets.add channel p.subscribed_channels;
}
subscribe_answered channel false p = p

unfoldable pub unsubscribe_answered : Str → Bool → RedisPubSub → RedisPubSub
unsubscribe_answered channel true p = record {
  subscribed_channels = Sets.remove channel p.subscribed_channels;
}
unsubscribe_answered channel false p = p

-- shutdown: `subscriber.unsubscribe()`, then the set is cleared.
unfoldable pub shutdown : Bool → RedisPubSub → RedisPubSub
shutdown true p = record { subscribed_channels = [] }
shutdown false p = p
