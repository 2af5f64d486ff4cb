-- ===== src/PubSub/Examples.antt =====
-- Instances for src/redis/RedisPubSub.ts: sockets 0 and 1 are ann's, socket 2 is bob's, and only
-- the first and the last are registered.
use live_r.Base.{
  ◌≡◌, refl, ◌≢◌, true, false, not, ◌&&◌, [], ◌∷◌, ◌++◌, arith, All, to_nat, or_else, length,
}
use live_r.Base.Text.{Str, codes, includes}
use live_r.Base.Equality.{str_eq, str_beq, nat_eq, ◌==◌}
use live_r.Base.Dict
use live_r.Base.Sets
use live_r.Types.{Heap, sends_to}
use live_r.Connections.{ConnectionManager, create, add}
use live_r.Connections.Invariant.{IsIndexed, DistinctIds, registered, is_of, create-IsIndexed}
use live_r.Connections.Add.{add-IsIndexed}
use live_r.Connections.Send.{IsSend}
use live_r.PubSub.{
  RedisPubSub, handle_message, user_channel, broadcast_channel, subscribe_answered,
  unsubscribe_answered, wants_subscribe, wants_unsubscribe,
}
use live_r.PubSub.Channels.{handle_message-user_channel, sends_to_other_user}
use live_r.PubSub.Subscriptions.{subscriptions}

abbrev ann : Str
ann = codes "ann"

abbrev sockets : Heap
sockets w = record {
  user_id = elim (w == 2) [ true ↦ codes "bob" | false ↦ ann ];
  connection_id = w ∷ [];
  rooms = [];
  permissions = [];
  connected_at = 0;
  last_pong = 0;
}

sockets_distinct : DistinctIds sockets
sockets_distinct v w e = ground arith

abbrev both : ConnectionManager
both = (add sockets 2 (add sockets 0 (create 3)).0).0

both-IsIndexed : IsIndexed sockets both
unfolding create add Dict.get Dict.set Sets.add str_beq
both-IsIndexed =
    add-IsIndexed sockets 2 (add sockets 0 (create 3)).0 sockets_distinct
      (add-IsIndexed sockets 0 (create 3) sockets_distinct (create-IsIndexed sockets 3) refl) refl

first_registered : registered sockets 0 both ≡ true
unfolding create add Dict.get Dict.set Sets.add str_beq
first_registered = refl

ann_named : ann ≢ []
ann_named e = ground arith

ann_plain : includes ann b':' ≡ false
unfolding includes
ann_plain = refl

handle_message-user_channel_example :
    (sends_to 0 (handle_message (user_channel ann) (codes "hi") both).0
      ≡ to_nat (registered sockets 0 both && (sockets 0).user_id == ann))
    × All (IsSend (codes "hi")) (handle_message (user_channel ann) (codes "hi") both).0
    × (or_else 0 (handle_message (user_channel ann) (codes "hi") both).1
        ≡ Dict.total (is_of sockets ann) both.connections)
handle_message-user_channel_example =
    handle_message-user_channel sockets ann (codes "hi") 0 both both-IsIndexed ann_named ann_plain

sends_to_other_user_example :
    sends_to 0 (handle_message (user_channel (ann ++ b':' ∷ codes "phone")) (codes "hi") both).0 ≡ 1
sends_to_other_user_example =
    sends_to_other_user sockets ann (codes "phone") (codes "hi") 0 both both-IsIndexed ann_named
      ann_plain first_registered refl

abbrev fresh : RedisPubSub
fresh = record { subscribed_channels = broadcast_channel ∷ [] }

fresh-IsUnique : Sets.IsUnique fresh.subscribed_channels
unfolding Sets.has
fresh-IsUnique = (refl, tt)

subscriptions_instance :
    (wants_subscribe ann (subscribe_answered ann true fresh) ≡ false)
    × (length (subscribe_answered ann true (subscribe_answered ann true fresh)).subscribed_channels
        ≡ length (subscribe_answered ann true fresh).subscribed_channels)
    × Sets.IsUnique (subscribe_answered ann true fresh).subscribed_channels
    × (wants_unsubscribe broadcast_channel
          (unsubscribe_answered ann true (subscribe_answered ann true fresh))
        ≡ (not (ann == broadcast_channel) && wants_unsubscribe broadcast_channel fresh))
subscriptions_instance = subscriptions ann broadcast_channel fresh fresh-IsUnique
