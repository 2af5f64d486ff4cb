-- ===== src/Cluster/Copies.antt =====
-- src/core/MessageRouter.ts with src/redis/RedisPubSub.ts: how often one message reaches a socket or
-- a topic, on the instance that sends it and on another one.
use live_r.Base.{
  ◌≤◌, refl, length, ◌+◌, ◌*◌, ◌≡◌, ◌≢◌, ap, true, false, ◌&&◌, List, [], ◌∷◌, ◌++◌, Option, to_nat,
  arith,
}
use live_r.Base.Text.{Str, codes, includes}
use live_r.Base.Equality.{str_eq, nat_eq, ◌==◌}
use live_r.Base.Sets
use live_r.Protocol.Values.{Json}
use live_r.Types.{Ws, Heap, Effect, sends_to, publishes_to, sends_to-append}
use live_r.Types
use live_r.Connections.{ConnectionManager}
use live_r.Connections.Invariant.{IsIndexed, registered}
use live_r.PubSub.{RedisPubSub, user_channel, room_channel, broadcast_channel}
use live_r.Router.{Router, send_to_target, send_to_room, broadcast}
use live_r.Router.Delivery.{delivered-send_to_target}
use live_r.Cluster.{subscribed_to, receives, published, IsAtMostOnce}
use live_r.Protocol.{message, serialize}
use live_r.Cluster.Delivery.{
  user_received, room_received, broadcast_received, room_calls, broadcast_calls, published_user,
  handed_one,
}

-- The instance has the three channels that the messages go by.
abbrev pub HasChannels : Str → Str → RedisPubSub → Type 0
HasChannels user room p =
    (Sets.has (user_channel user) p.subscribed_channels ≡ true)
    × (Sets.has (room_channel room) p.subscribed_channels ≡ true)
    × (Sets.has broadcast_channel p.subscribed_channels ≡ true)

publishes_to-append :
    (t : Str) (es fs : List Effect)
    → publishes_to t (es ++ fs) ≡ publishes_to t es + publishes_to t fs
publishes_to-append t [] fs = omega arith
publishes_to-append t (Types.publish_app u payload ∷ es) fs =
    omega (arith, publishes_to-append t es fs)
publishes_to-append t (e ∷ es) fs = publishes_to-append t es fs

module _ (inbox : List Str → List (Str × Str) → List (Str × Str))
    (documented : (channels : List Str) (sent : List (Str × Str))
      → inbox channels sent ≡ subscribed_to channels sent)
    (h : Heap) (c : Router) (i : IsIndexed h c.connections) (on : c.redis ≡ true)
    (user room event : Str) (data' : Option Json) (named : user ≢ [])
    (plain : includes user b':' ≡ false) where
  -- Where Redis loses nothing, each of the three goes once on an instance that has the channels.
  copies_kept :
      (g : Heap) (p : RedisPubSub) (m : ConnectionManager) (w : Ws) (topic : Str)
      → IsIndexed g m
      → HasChannels user room p
      → (sends_to w (receives inbox p m (send_to_target c (codes "user:" ++ user) event data').0)
          ≡ to_nat (registered g w m && (g w).user_id == user))
        × (publishes_to topic (receives inbox p m (send_to_room c room event data').0)
            ≡ to_nat (room == topic))
        × (publishes_to topic (receives inbox p m (broadcast c event data').0)
            ≡ to_nat (codes "broadcast" == topic))
  copies_kept g p m w topic v heard = (
    user_received inbox documented g p m v h c user event data' w on i named plain heard.0,
    room_received inbox documented g p m v c room event data' topic on heard.1,
    broadcast_received inbox documented g p m v c event data' topic on heard.2,
  )

  -- On the instance that sends, if it has the channels itself and Redis loses nothing, each of the three goes twice: once at
  -- once, and once when Redis hands the instance its own message.
  pub copies_here :
      (p : RedisPubSub) (w : Ws) (topic : Str)
      → HasChannels user room p
      → let all = (λ (es : List Effect). es ++ receives inbox p c.connections es) in
        (sends_to w (all (send_to_target c (codes "user:" ++ user) event data').0)
          ≡ 2 * to_nat (registered h w c.connections && (h w).user_id == user))
        × (publishes_to topic (all (send_to_room c room event data').0)
            ≡ 2 * to_nat (room == topic))
        × (publishes_to topic (all (broadcast c event data').0)
            ≡ 2 * to_nat (codes "broadcast" == topic))
  copies_here p w topic heard =
      let there = copies_kept h p c.connections w topic i heard in
      let to_user = (send_to_target c (codes "user:" ++ user) event data').0 in
      let to_room = (send_to_room c room event data').0 in
      let to_all = (broadcast c event data').0 in
      (
        omega (
          arith,
          sends_to-append w to_user (receives inbox p c.connections to_user),
          there.0,
          (delivered-send_to_target h c user event data' w i).0,
        ),
        omega (
          arith,
          publishes_to-append topic to_room (receives inbox p c.connections to_room),
          there.1,
          ap (publishes_to topic) (room_calls c room event data' on),
        ),
        omega (
          arith,
          publishes_to-append topic to_all (receives inbox p c.connections to_all),
          there.2,
          ap (publishes_to topic) (broadcast_calls c event data' on),
        ),
      )

-- With Redis, on any other consistent instance that has the channels: a message to a user, whose name
-- is not empty and holds no colon, goes to each registered socket of the user and to no other, one to
-- a room goes to the topic of the room, one to all to the topic of all, and neither to any other
-- topic; each as often as Redis hands it to the instance, which is once or, if it is lost, never.
pub copies_elsewhere :
    (inbox : List Str → List (Str × Str) → List (Str × Str)) (h : Heap) (c : Router)
    (user room event : Str) (data' : Option Json) (g : Heap) (p : RedisPubSub)
    (m : ConnectionManager) (w : Ws) (topic : Str)
    → IsAtMostOnce inbox
    → IsIndexed h c.connections
    → c.redis ≡ true
    → user ≢ []
    → includes user b':' ≡ false
    → IsIndexed g m
    → HasChannels user room p
    → let to_user = (send_to_target c (codes "user:" ++ user) event data').0 in
      let to_room = (send_to_room c room event data').0 in
      let to_all = (broadcast c event data').0 in
      let handed = (λ (es : List Effect). length (inbox p.subscribed_channels (published es))) in
      (handed to_user ≤ 1)
      × (sends_to w (receives inbox p m to_user)
          ≡ handed to_user * to_nat (registered g w m && (g w).user_id == user))
      × (handed to_room ≤ 1)
      × (publishes_to topic (receives inbox p m to_room) ≡ handed to_room * to_nat (room == topic))
      × (handed to_all ≤ 1)
      × (publishes_to topic (receives inbox p m to_all)
          ≡ handed to_all * to_nat (codes "broadcast" == topic))
copies_elsewhere inbox h c user room event data' g p m w topic lossy i on named plain v heard =
    let sure =
      copies_kept subscribed_to (λ channels sent. refl) h c i on user room event data' named plain g
        p m w topic v heard in
    let text = (λ (target : Str). serialize (message target event data' c.now)) in
    let to_user = (send_to_target c (codes "user:" ++ user) event data').0 in
    let to_room = (send_to_room c room event data').0 in
    let to_all = (broadcast c event data').0 in
    let users =
      handed_one inbox lossy p m to_user (user_channel user) (text (codes "user:" ++ user))
        (sends_to w) heard.0 (published_user h c user event data' on i) refl in
    let rooms =
      handed_one inbox lossy p m to_room (room_channel room) (text room) (publishes_to topic)
        heard.1 (ap published (room_calls c room event data' on)) refl in
    let all =
      handed_one inbox lossy p m to_all broadcast_channel (text (codes "broadcast"))
        (publishes_to topic) heard.2 (ap published (broadcast_calls c event data' on)) refl in
    (users.0, rw sure.0 at users.1, rooms.0, rw sure.1 at rooms.1, all.0, rw sure.2 at all.1)
