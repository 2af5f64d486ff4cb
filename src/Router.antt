-- ===== src/Router.antt =====
-- src/core/MessageRouter.ts: to a user or a room by target, to a room, to all. `Date.now()` and the
-- ISO time of the result are arguments, and whether there is a `redisPubSub`.
pub mod Target
pub mod Delivery
pub mod Prefix
mod Examples
use live_r.Base.{
  ℕ, Bool, true, false, ◌||◌, List, [], ◌∷◌, ◌++◌, Option, none, some, nat_beq, if◌then◌else◌,
}
use live_r.Base.Text.{Str, codes, starts_with, slice, includes}
use live_r.Protocol.Values.{Json}
use live_r.Protocol.{message, serialize}
use live_r.Types.{Effect, publish_app}
use live_r.Connections.{ConnectionManager, send_to_user, size}
use live_r.Rooms.{RoomManager, get_member_count}
use live_r.PubSub.{publish_to_user, publish_to_room, publish_broadcast}

pub record RouteResult : Type 0 where
  pub success : Bool
  pub delivered : ℕ
  pub timestamp : Str
  pub room : Option Str

-- What the router stands on: its managers, whether it has Redis, and the clock.
pub record Router : Type 0 where
  pub connections : ConnectionManager
  pub rooms : RoomManager
  pub redis : Bool
  pub now : ℕ
  pub iso_now : Str

abbrev with_redis : Router → List Effect → List Effect
with_redis c effects = if c.redis then effects else []

-- With Redis a message for nobody here counts as one.
en_route : Router → ℕ → ℕ
en_route c delivered = if c.redis then (if nat_beq delivered 0 then 1 else delivered) else delivered

unfoldable pub route_user : Router → Str → Str → List Effect × RouteResult
unfolding en_route
route_user c user_id payload =
    let (effects, delivered) = send_to_user user_id payload c.connections in
    (
      effects ++ with_redis c (publish_to_user user_id payload),
      record {
        success = true;
        delivered = en_route c delivered;
        timestamp = c.iso_now;
        room = none;
      },
    )

unfoldable pub route_room : Router → Str → Str → Option Str → List Effect × RouteResult
route_room c room_id payload named = (
  publish_app room_id payload ∷ with_redis c (publish_to_room room_id payload),
  record {
    success = true;
    delivered = get_member_count room_id c.rooms;
    timestamp = c.iso_now;
    room = named;
  },
)

unfoldable pub send_to_target : Router → Str → Str → Option Json → List Effect × RouteResult
unfolding route_user route_room
send_to_target c target event data' =
    let payload = serialize (message target event data' c.now) in
    if starts_with target (codes "user:")
    then route_user c (slice target 5) payload
    else if starts_with target (codes "room:") || includes target b':'
    then route_room c (if starts_with target (codes "room:") then slice target 5 else target)
        payload none
    else ([], record { success = false; delivered = 0; timestamp = c.iso_now; room = none })

unfoldable pub send_to_room : Router → Str → Str → Option Json → List Effect × RouteResult
unfolding route_room
send_to_room c room_id event data' =
    route_room c room_id (serialize (message room_id event data' c.now)) (some room_id)

unfoldable pub broadcast : Router → Str → Option Json → List Effect × RouteResult
broadcast c event data' =
    let payload = serialize (message (codes "broadcast") event data' c.now) in
    (
      publish_app (codes "broadcast") payload ∷ with_redis c (publish_broadcast payload),
      record { success = true; delivered = size c.connections; timestamp = c.iso_now; room = none },
    )
