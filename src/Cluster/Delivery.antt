-- ===== src/Cluster/Delivery.antt =====
-- What an instance does about a message that some instance sent: src/core/MessageRouter.ts
-- with src/redis/RedisPubSub.ts.
use live_r.Base.{
  ℕ, ◌≤◌, ◌*◌, Bool, length, ◌≡◌, ◌≢◌, refl, ap, true, false, ◌&&◌, List, [], ◌∷◌, ◌++◌, Option,
  to_nat, arith, All,
}
use live_r.Base.Text.{Str, codes, includes, starts_with}
use live_r.Base.Equality.{str_eq, nat_eq, ◌==◌}
use live_r.Base.Sets
use live_r.Protocol.Values.{Json}
use live_r.Protocol.{message, serialize}
use live_r.Types.{
  Ws, Heap, Effect, sends_to, publishes_to, sends_to-append, publish_redis, publish_app,
}
use live_r.Types
use live_r.Connections.{ConnectionManager, send_to_user}
use live_r.Connections.Invariant.{IsIndexed, registered}
use live_r.Connections.Send.{IsSend, sends-send_to_user}
use live_r.PubSub.{
  RedisPubSub, handle_message, user_channel, room_channel, broadcast_channel, publish_to_user,
  publish_to_room, publish_broadcast,
}
use live_r.PubSub.Channels.{
  handle_message-user_channel, handle_message-room_channel, handle_message-broadcast_channel,
}
use live_r.Router.{Router, send_to_target, send_to_room, broadcast, route_user, route_room}
use live_r.Cluster.{published, subscribed_to, on_messages, receives, kept, IsAtMostOnce}

published_sends :
    (payload : Str) (es fs : List Effect)
    → All (IsSend payload) es
    → published (es ++ fs) ≡ published fs
published_sends payload [] fs a = refl
published_sends payload (Types.send ws p ∷ es) fs a = published_sends payload es fs a.1
published_sends payload (e ∷ es) fs a = absurd a.0

-- The effects of the three routes that Redis sees, with Redis.
pub published_user :
    (h : Heap) (c : Router) (user event : Str) (data' : Option Json)
    → c.redis ≡ true
    → IsIndexed h c.connections
    → let text = serialize (message (codes "user:" ++ user) event data' c.now) in
      published (send_to_target c (codes "user:" ++ user) event data').0
      ≡ (user_channel user, text) ∷ []
unfolding send_to_target route_user publish_to_user starts_with
published_user h c user event data' on v =
    let text = serialize (message (codes "user:" ++ user) event data' c.now) in
    rw on (
      published_sends text (send_to_user user text c.connections).0
        (publish_redis (user_channel user) text ∷ [])
        (sends-send_to_user h user text 0 c.connections v).1)

pub room_calls :
    (c : Router) (room event : Str) (data' : Option Json)
    → c.redis ≡ true
    → let text = serialize (message room event data' c.now) in
      (send_to_room c room event data').0
      ≡ publish_app room text ∷ publish_redis (room_channel room) text ∷ []
unfolding send_to_room route_room publish_to_room
room_calls c room event data' on = rw on refl

pub broadcast_calls :
    (c : Router) (event : Str) (data' : Option Json)
    → c.redis ≡ true
    → let text = serialize (message (codes "broadcast") event data' c.now) in
      (broadcast c event data').0
      ≡ publish_app (codes "broadcast") text ∷ publish_redis broadcast_channel text ∷ []
unfolding broadcast publish_broadcast
broadcast_calls c event data' on = rw on refl

module _ (inbox : List Str → List (Str × Str) → List (Str × Str))
    (documented : (channels : List Str) (sent : List (Str × Str))
      → inbox channels sent ≡ subscribed_to channels sent) where
  -- One publication, on a channel that the instance has.
  receives_one :
      (p : RedisPubSub) (m : ConnectionManager) (es : List Effect) (channel text : Str)
      → Sets.has channel p.subscribed_channels ≡ true
      → published es ≡ (channel, text) ∷ []
      → receives inbox p m es ≡ (handle_message channel text m).0 ++ []
  unfolding receives on_messages
  receives_one p m es channel text on one =
      rw (one, documented p.subscribed_channels ((channel, text) ∷ []), on) refl

  module _ (g : Heap) (p : RedisPubSub) (m : ConnectionManager) (v : IsIndexed g m) where
    pub user_received :
        (h : Heap) (c : Router) (user event : Str) (data' : Option Json) (w : Ws)
        → c.redis ≡ true
        → IsIndexed h c.connections
        → user ≢ []
        → includes user b':' ≡ false
        → Sets.has (user_channel user) p.subscribed_channels ≡ true
        → sends_to w (receives inbox p m (send_to_target c (codes "user:" ++ user) event data').0)
          ≡ to_nat (registered g w m && (g w).user_id == user)
    user_received h c user event data' w on i named plain heard =
        let text = serialize (message (codes "user:" ++ user) event data' c.now) in
        let sent = (send_to_target c (codes "user:" ++ user) event data').0 in
        let got = (handle_message (user_channel user) text m).0 in
        rw
          (
            receives_one p m sent (user_channel user) text heard
                (published_user h c user event data' on i),
            sends_to-append w got [],
          )
          (ground (arith, (handle_message-user_channel g user text w m v named plain).0))

    pub room_received :
        (c : Router) (room event : Str) (data' : Option Json) (topic : Str)
        → c.redis ≡ true
        → Sets.has (room_channel room) p.subscribed_channels ≡ true
        → publishes_to topic (receives inbox p m (send_to_room c room event data').0)
          ≡ to_nat (room == topic)
    room_received c room event data' topic on heard =
        let text = serialize (message room event data' c.now) in
        rw
          (
            receives_one p m (send_to_room c room event data').0 (room_channel room) text heard
                (ap published (room_calls c room event data' on)),
            handle_message-room_channel room text m,
          )
          (omega arith)

    pub broadcast_received :
        (c : Router) (event : Str) (data' : Option Json) (topic : Str)
        → c.redis ≡ true
        → Sets.has broadcast_channel p.subscribed_channels ≡ true
        → publishes_to topic (receives inbox p m (broadcast c event data').0)
          ≡ to_nat (codes "broadcast" == topic)
    broadcast_received c event data' topic on heard =
        let text = serialize (message (codes "broadcast") event data' c.now) in
        rw
          (
            receives_one p m (broadcast c event data').0 broadcast_channel text heard
                (ap published (broadcast_calls c event data' on)),
            (handle_message-broadcast_channel text m).0,
          )
          (omega arith)

-- A message that Redis may lose does what it does where none is lost, as often as it is handed over:
-- once or not at all. `f` counts some of what is done.
pub handed_one :
    (inbox : List Str → List (Str × Str) → List (Str × Str))
    → IsAtMostOnce inbox
    → (p : RedisPubSub) (m : ConnectionManager) (es : List Effect) (channel text : Str)
      (f : List Effect → ℕ)
    → Sets.has channel p.subscribed_channels ≡ true
    → published es ≡ (channel, text) ∷ []
    → f [] ≡ 0
    → let got = inbox p.subscribed_channels (published es) in
      (length got ≤ 1)
      × (f (receives inbox p m es) ≡ length got * f (receives subscribed_to p m es))
unfolding receives on_messages
handed_one inbox lossy p m es channel text f on one nothing =
    let (marks, e) = lossy p.subscribed_channels (published es) in by_marks marks e
  where
    sure : List Effect
    sure = (handle_message channel text m).0 ++ []

    counted : List (Str × Str) → Type 0
    counted got = (length got ≤ 1) × (f (on_messages got m) ≡ length got * f sure)

    by_kept : (marks : List Bool) → counted (kept marks ((channel, text) ∷ []))
    by_kept [] = (omega arith, omega (arith, nothing))
    by_kept (true ∷ []) = (omega arith, omega arith)
    by_kept (true ∷ b ∷ bs) = (omega arith, omega arith)
    by_kept (false ∷ []) = (omega arith, omega (arith, nothing))
    by_kept (false ∷ b ∷ bs) = (omega arith, omega (arith, nothing))

    by_marks :
        (marks : List Bool)
        → inbox p.subscribed_channels (published es)
          ≡ kept marks (subscribed_to p.subscribed_channels (published es))
        → (length (inbox p.subscribed_channels (published es)) ≤ 1)
          × (f (on_messages (inbox p.subscribed_channels (published es)) m)
              ≡ length (inbox p.subscribed_channels (published es))
                * f (on_messages (subscribed_to p.subscribed_channels (published es)) m))
    by_marks marks e = rw (e, one, on) (by_kept marks)
