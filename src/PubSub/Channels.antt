-- ===== src/PubSub/Channels.antt =====
-- src/redis/RedisPubSub.ts: what reaches whom over a channel.
use live_r.Base.{
  ◌≡◌, refl, ◌≢◌, true, false, ◌&&◌, [], ◌∷◌, ◌++◌, none, some, or_else, arith, to_nat, All,
}
use live_r.Base.Text.{
  Str, codes, starts_with, split_at, before, includes, before-includes, before-append,
}
use live_r.Base.Equality.{str_eq, str_beq, nat_eq, ◌==◌, eq_iff}
use live_r.Base.Dict
use live_r.Types.{Ws, Heap, publish_app, sends_to}
use live_r.Connections.{ConnectionManager, get_by_user_id, send_to_user, size}
use live_r.Connections.Invariant.{IsIndexed, registered, is_of}
use live_r.Connections.Send.{IsSend, sends-send_to_user}
use live_r.PubSub.{handle_message, forward_to_user, room_channel, user_channel, broadcast_channel}

-- A room's channel leads back to the room, whatever its name, and nothing else is called.
pub handle_message-room_channel :
    (room_id message : Str) (m : ConnectionManager)
    → handle_message (room_channel room_id) message m ≡ (publish_app room_id message ∷ [], none)
unfolding handle_message str_beq starts_with
handle_message-room_channel room_id message m = refl

-- The user that a user's channel leads to: the part of the name before the first colon.
user_part :
    (user_id message : Str) (m : ConnectionManager)
    → handle_message (user_channel user_id) message m
      ≡ forward_to_user (some (before b':' user_id)) message m
unfolding handle_message str_beq starts_with split_at
user_part user_id message m = refl

-- Forwarding to a user sends as `sendToUser` does, and the callback gets the count, if it is not 0.
forward_to_user-send_to_user :
    (user_id message : Str) (m : ConnectionManager)
    → user_id ≢ []
    → ((forward_to_user (some user_id) message m).0 ≡ (send_to_user user_id message m).0)
      × (or_else 0 (forward_to_user (some user_id) message m).1
          ≡ (send_to_user user_id message m).1)
unfolding forward_to_user get_by_user_id send_to_user
forward_to_user-send_to_user [] message m named = absurd (named refl)
forward_to_user-send_to_user (c ∷ user_id) message m named = ground arith

-- From consistent connections, for a user whose name is not empty and holds no colon: a message on
-- the user's channel goes once to each registered socket of the user and to no other socket, no
-- other call is made, and the delivery callback gets the number of connections of the user.
pub handle_message-user_channel :
    (h : Heap) (user_id message : Str) (w : Ws) (m : ConnectionManager)
    → IsIndexed h m
    → user_id ≢ []
    → includes user_id b':' ≡ false
    → (sends_to w (handle_message (user_channel user_id) message m).0
        ≡ to_nat (registered h w m && (h w).user_id == user_id))
      × All (IsSend message) (handle_message (user_channel user_id) message m).0
      × (or_else 0 (handle_message (user_channel user_id) message m).1
          ≡ Dict.total (is_of h user_id) m.connections)
handle_message-user_channel h user_id message w m v named plain =
    rw
      (
        user_part user_id message m,
        before-includes b':' user_id plain,
        (forward_to_user-send_to_user user_id message m named).0,
        (forward_to_user-send_to_user user_id message m named).1,
      )
      (sends-send_to_user h user_id message w m v)

-- A user whose name goes on behind a colon shares the channel of the user named by what stands
-- before it: whatever arrives on the one's channel is handled as if it were the other's.
pub handle_message-user_channel_colon :
    (a b message : Str) (m : ConnectionManager)
    → includes a b':' ≡ false
    → handle_message (user_channel (a ++ b':' ∷ b)) message m
      ≡ handle_message (user_channel a) message m
handle_message-user_channel_colon a b message m plain = rw (
  user_part (a ++ b':' ∷ b) message m,
  user_part a message m,
  before-append b':' a b plain,
  before-includes b':' a plain,
)

-- So the message for the user `a:b` is sent to every registered socket of the user `a`.
pub sends_to_other_user :
    (h : Heap) (a b message : Str) (w : Ws) (m : ConnectionManager)
    → IsIndexed h m
    → a ≢ []
    → includes a b':' ≡ false
    → registered h w m ≡ true
    → (h w).user_id ≡ a
    → sends_to w (handle_message (user_channel (a ++ b':' ∷ b)) message m).0 ≡ 1
sends_to_other_user h a b message w m v named plain on own =
    rw (handle_message-user_channel_colon a b message m plain) (
      ground (
        arith,
        (handle_message-user_channel h a message w m v named plain).0,
        eq_iff (h w).user_id a,
      ))

-- The broadcast channel reaches the topic that every socket subscribes to, and the callback gets
-- the number of connections, unless there is none.
pub handle_message-broadcast_channel :
    (message : Str) (m : ConnectionManager)
    → ((handle_message broadcast_channel message m).0
        ≡ publish_app (codes "broadcast") message ∷ [])
      × (or_else 0 (handle_message broadcast_channel message m).1 ≡ size m)
      × ((handle_message broadcast_channel message m).1 ≢ some 0)
unfolding handle_message str_beq
handle_message-broadcast_channel message m = (refl, ground arith, ground arith)
