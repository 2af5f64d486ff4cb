-- ===== src/Cluster/Examples.antt =====
-- Instances for several instances joined by Redis: socket 0 of ann on both, and Redis as documented.
use live_r.Base.{
  ◌≤◌, length, ◌*◌, ◌≡◌, ◌≢◌, refl, true, false, ◌&&◌, List, [], ◌∷◌, ◌++◌, none, to_nat, arith,
}
use live_r.Base.Text.{Str, codes, includes}
use live_r.Base.Equality.{str_eq, str_beq, nat_eq, ◌==◌}
use live_r.Base.Dict
use live_r.Base.Sets
use live_r.Types.{Heap, Effect, sends_to, publishes_to}
use live_r.Connections.{ConnectionManager, create, add}
use live_r.Connections.Invariant.{IsIndexed, DistinctIds, registered, create-IsIndexed}
use live_r.Connections.Add.{add-IsIndexed}
use live_r.Rooms
use live_r.PubSub.{RedisPubSub, user_channel, room_channel, broadcast_channel}
use live_r.Router.{Router, send_to_target, send_to_room, broadcast}
use live_r.Cluster.{subscribed_to, receives, published, kept, IsAtMostOnce}
use live_r.Cluster.Copies.{HasChannels, copies_elsewhere, copies_here}

abbrev ann : Str
ann = codes "ann"

abbrev news : Str
news = codes "news"

abbrev sockets : Heap
sockets w = record {
  user_id = ann;
  connection_id = w ∷ [];
  rooms = [];
  permissions = [];
  connected_at = 0;
  last_pong = 0;
}

sockets_distinct : DistinctIds sockets
sockets_distinct v w e = ground arith

abbrev one : ConnectionManager
one = (add sockets 0 (create 3)).0

one-IsIndexed : IsIndexed sockets one
unfolding create Dict.get
one-IsIndexed =
    add-IsIndexed sockets 0 (create 3) sockets_distinct (create-IsIndexed sockets 3) refl

abbrev router : Router
router = record {
  connections = one;
  rooms = Rooms.create 100;
  redis = true;
  now = 5;
  iso_now = codes "1970";
}

abbrev subscriber : RedisPubSub
subscriber = record {
  subscribed_channels = user_channel ann ∷ room_channel news ∷ broadcast_channel ∷ [];
}

subscriber-HasChannels : HasChannels ann news subscriber
unfolding Sets.has str_beq
subscriber-HasChannels = (refl, refl, refl)

as_documented :
    (channels : List Str) (sent : List (Str × Str))
    → subscribed_to channels sent ≡ subscribed_to channels sent
as_documented channels sent = refl

ann_named : ann ≢ []
ann_named e = ground arith

ann_plain : includes ann b':' ≡ false
unfolding includes
ann_plain = refl

-- The first message alone arrives.
abbrev first_alone : List Str → List (Str × Str) → List (Str × Str)
first_alone channels sent = kept (true ∷ false ∷ []) (subscribed_to channels sent)

first_alone-IsAtMostOnce : IsAtMostOnce first_alone
first_alone-IsAtMostOnce channels sent = (true ∷ false ∷ [], refl)

copies_elsewhere_example :
    let to_user = (send_to_target router (codes "user:" ++ ann) (codes "e") none).0 in
    let to_room = (send_to_room router news (codes "e") none).0 in
    let to_all = (broadcast router (codes "e") none).0 in
    let handed =
      (λ (es : List Effect). length (first_alone subscriber.subscribed_channels (published es))) in
    (handed to_user ≤ 1)
    × (sends_to 0 (receives first_alone subscriber one to_user)
        ≡ handed to_user * to_nat (registered sockets 0 one && (sockets 0).user_id == ann))
    × (handed to_room ≤ 1)
    × (publishes_to news (receives first_alone subscriber one to_room)
        ≡ handed to_room * to_nat (news == news))
    × (handed to_all ≤ 1)
    × (publishes_to news (receives first_alone subscriber one to_all)
        ≡ handed to_all * to_nat (codes "broadcast" == news))
copies_elsewhere_example =
    copies_elsewhere first_alone sockets router ann news (codes "e") none sockets subscriber one 0
      news first_alone-IsAtMostOnce one-IsIndexed refl ann_named ann_plain one-IsIndexed
      subscriber-HasChannels

copies_here_example :
    let all = (λ (es : List Effect). es ++ receives subscribed_to subscriber one es) in
    (sends_to 0 (all (send_to_target router (codes "user:" ++ ann) (codes "e") none).0)
      ≡ 2 * to_nat (registered sockets 0 one && (sockets 0).user_id == ann))
    × (publishes_to news (all (send_to_room router news (codes "e") none).0)
        ≡ 2 * to_nat (news == news))
    × (publishes_to news (all (broadcast router (codes "e") none).0)
        ≡ 2 * to_nat (codes "broadcast" == news))
copies_here_example =
    copies_here subscribed_to as_documented sockets router one-IsIndexed refl ann news (codes "e")
      none ann_named ann_plain subscriber 0 news subscriber-HasChannels
