-- ===== src/Router/Delivery.antt =====
-- src/core/MessageRouter.ts: whom a message to a user reaches here, and what is counted.
use live_r.Base.{
  ℕ, ◌≡◌, Bool, true, false, ◌&&◌, [], ◌++◌, Option, if◌then◌else◌, arith, to_nat, ◌∙◌, ◌+◌,
  nat_beq,
}
use live_r.Base.Text.{Str, codes, starts_with}
use live_r.Base.Equality.{str_eq, ◌==◌}
use live_r.Base.Dict
use live_r.Protocol.Values.{Json}
use live_r.Protocol.{message, serialize}
use live_r.Types.{Ws, Heap, sends_to, sends_to-append}
use live_r.Connections.{send_to_user}
use live_r.Connections.Invariant.{IsIndexed, registered, is_of}
use live_r.Connections.Send.{sends-send_to_user}
use live_r.PubSub.{publish_to_user}
use live_r.Router.{Router, send_to_target, route_user}

sends-route_user :
    (c : Router) (user_id payload : Str) (w : Ws)
    → sends_to w (route_user c user_id payload).0
      ≡ sends_to w (send_to_user user_id payload c.connections).0
unfolding route_user publish_to_user
sends-route_user c user_id payload w =
    rw sends_to-append
      (no_sends c.redis (sends_to w (send_to_user user_id payload c.connections).0))
  where
    no_sends :
        (redis : Bool) (n : ℕ)
        → n + sends_to w (if redis then publish_to_user user_id payload else []) ≡ n
    no_sends true n = omega arith
    no_sends false n = omega arith

-- From consistent connections, a message to a user is sent here once to each registered socket of
-- the user and to no other; it counts as delivered to the number of the user's connections here,
-- and to one where there are none but Redis may know of some elsewhere.
pub delivered-send_to_target :
    (h : Heap) (c : Router) (user_id event : Str) (data' : Option Json) (w : Ws)
    → IsIndexed h c.connections
    → let r = send_to_target c (codes "user:" ++ user_id) event data' in
      let n = Dict.total (is_of h user_id) c.connections.connections in
      (sends_to w r.0 ≡ to_nat (registered h w c.connections && (h w).user_id == user_id))
      × (r.1.delivered ≡ (if c.redis && nat_beq n 0 then 1 else n))
unfolding send_to_target starts_with
delivered-send_to_target h c user_id event data' w v =
    let payload = serialize (message (codes "user:" ++ user_id) event data' c.now) in
    let sent = sends-send_to_user h user_id payload w c.connections v in
    (sends-route_user c user_id payload w ∙ sent.0, unfold route_user in ground (arith, sent.2))
