-- ===== src/Router/Target.antt =====
-- `sendToTarget` of src/core/MessageRouter.ts: how a target is read.
use live_r.Base.{
  ◌≡◌, refl, true, ◌++◌, Option, none, if◌then◌else◌, length, arith, ◌+◌, subst, sym, drop,
}
use live_r.Base.Text.{Str, codes, starts_with, starts_with-eq, includes, includes-append}
use live_r.Protocol.Values.{Json}
use live_r.Protocol.{message, serialize}
use live_r.Router.{Router, send_to_target, route_user, route_room}

prefixed_includes :
    (target p : Str)
    → includes p b':' ≡ true
    → starts_with target p ≡ true
    → includes target b':' ≡ true
prefixed_includes target p colon h =
    subst (λ (t : Str). includes t b':' ≡ true) (sym (starts_with-eq target p h))
      (includes-append p (drop (length p) target) b':' colon)

-- `user:` in front of a name leads to the user of that name, `room:` in front of it to the room,
-- whatever the name. A target succeeds exactly if it holds a colon: any other sends and publishes
-- nothing, and counts as delivered to nobody, in one answer that is no success.
pub send_to_target_branches :
    (c : Router) (name target event : Str) (data' : Option Json)
    → let text = (λ (t : Str). serialize (message t event data' c.now)) in
      let r = send_to_target c target event data' in
      (send_to_target c (codes "user:" ++ name) event data'
        ≡ route_user c name (text (codes "user:" ++ name)))
      × (send_to_target c (codes "room:" ++ name) event data'
          ≡ route_room c name (text (codes "room:" ++ name)) none)
      × (r.1.success ≡ includes target b':')
      × ((if r.1.success then 0 else length r.0 + r.1.delivered) ≡ 0)
unfolding send_to_target starts_with includes
send_to_target_branches c name target event data' = (
  refl,
  refl,
  ground (
    arith,
    prefixed_includes target (codes "user:") refl,
    prefixed_includes target (codes "room:") refl,
  ),
  ground (
    arith,
    prefixed_includes target (codes "user:") refl,
    prefixed_includes target (codes "room:") refl,
  ),
)
