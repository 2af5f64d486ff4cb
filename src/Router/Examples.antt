-- ===== src/Router/Examples.antt =====
-- Instances for src/core/MessageRouter.ts: with Redis, and sockets 0 of ann and 2 of bob.
use live_r.Base.{
  ◌≡◌, refl, true, false, ◌&&◌, ◌+◌, [], ◌∷◌, ◌++◌, none, arith, to_nat, nat_beq, length,
  if◌then◌else◌,
}
use live_r.Base.Text.{Str, codes, includes}
use live_r.Base.Equality.{str_eq, str_beq, nat_eq, ◌==◌}
use live_r.Base.Dict
use live_r.Base.Sets
use live_r.Protocol.{message, serialize}
use live_r.Types.{Heap, sends_to, publishes_to}
use live_r.Connections.{create, add}
use live_r.Connections.Invariant.{IsIndexed, DistinctIds, registered, is_of, create-IsIndexed}
use live_r.Connections.Add.{add-IsIndexed}
use live_r.Rooms
use live_r.Rooms.{RoomManager, is_member, get_member_count}
use live_r.Router.{Router, send_to_target, route_user, route_room}
use live_r.Router.Target.{send_to_target_branches}
use live_r.Router.Delivery.{delivered-send_to_target}
use live_r.Router.Prefix.{documented_room_missed}

abbrev ann : Str
ann = codes "ann"

abbrev sockets : Heap
sockets w = record {
  user_id = elim (w == 2) [ true ↦ codes "bob" | false ↦ ann ];
  connection_id = w ∷ [];
  rooms = [];
  permissions = [];
  connected_at = 0;
  last_pong = 0;
}

sockets_distinct : DistinctIds sockets
sockets_distinct v w e = ground arith

abbrev no_rooms : RoomManager
no_rooms = Rooms.create 100

abbrev router : Router
router = record {
  connections = (add sockets 2 (add sockets 0 (create 3)).0).0;
  rooms = no_rooms;
  redis = true;
  now = 5;
  iso_now = codes "1970";
}

router-IsIndexed : IsIndexed sockets router.connections
unfolding create add Dict.get Dict.set Sets.add str_beq
router-IsIndexed =
    add-IsIndexed sockets 2 (add sockets 0 (create 3)).0 sockets_distinct
      (add-IsIndexed sockets 0 (create 3) sockets_distinct (create-IsIndexed sockets 3) refl) refl

news_joined : (Rooms.subscribe 7 ann (codes "room:" ++ codes "news") no_rooms).1 ≡ true
unfolding Rooms.create Rooms.subscribe Rooms.at_limit Dict.get Dict.set Sets.add str_beq
news_joined = refl

news_empty : get_member_count (codes "news") no_rooms ≡ 0
unfolding Rooms.create get_member_count Dict.get
news_empty = refl

send_to_target_branches_instance :
    (send_to_target router (codes "user:" ++ ann) (codes "e") none
      ≡ route_user router ann (serialize (message (codes "user:" ++ ann) (codes "e") none 5)))
    × (send_to_target router (codes "room:" ++ ann) (codes "e") none
        ≡ route_room router ann
            (serialize (message (codes "room:" ++ ann) (codes "e") none 5))
            none)
    × ((send_to_target router (codes "x") (codes "e") none).1.success ≡ includes (codes "x") b':')
    × ((if (send_to_target router (codes "x") (codes "e") none).1.success
          then 0
          else length (send_to_target router (codes "x") (codes "e") none).0
            + (send_to_target router (codes "x") (codes "e") none).1.delivered)
        ≡ 0)
send_to_target_branches_instance = send_to_target_branches router ann (codes "x") (codes "e") none

delivered-send_to_target_example :
    (sends_to 0 (send_to_target router (codes "user:" ++ ann) (codes "e") none).0
      ≡ to_nat (registered sockets 0 router.connections && (sockets 0).user_id == ann))
    × ((send_to_target router (codes "user:" ++ ann) (codes "e") none).1.delivered ≡ (
        if router.redis && nat_beq (Dict.total (is_of sockets ann) router.connections.connections) 0
        then 1
        else Dict.total (is_of sockets ann) router.connections.connections))
delivered-send_to_target_example =
    delivered-send_to_target sockets router ann (codes "e") none 0 router-IsIndexed

abbrev news : RoomManager
news = (Rooms.subscribe 7 ann (codes "room:" ++ codes "news") no_rooms).0

documented_room_missed_example :
    (is_member ann (codes "room:" ++ codes "news") news ≡ true)
    × ((send_to_target
          (record router { rooms = news })
          (codes "room:" ++ codes "news")
          (codes "e")
          none).1.success
        ≡ true)
    × ((send_to_target
          (record router { rooms = news })
          (codes "room:" ++ codes "news")
          (codes "e")
          none).1.delivered
        ≡ 0)
    × (publishes_to
          (codes "room:" ++ codes "news")
          (send_to_target
            (record router { rooms = news })
            (codes "room:" ++ codes "news")
            (codes "e")
            none).0
        ≡ 0)
documented_room_missed_example =
    documented_room_missed router 7 ann (codes "news") (codes "e") none no_rooms news_joined
      news_empty
