-- ===== src/PubSub/Subscriptions.antt =====
-- src/redis/RedisPubSub.ts: which channels an instance is subscribed to.
use live_r.Base.{◌≡◌, true, false, not, ◌&&◌, length, arith}
use live_r.Base.Text.{Str}
use live_r.Base.Equality.{str_eq, ◌==◌, eq_iff}
use live_r.Base.Sets
use live_r.PubSub.{
  RedisPubSub, wants_subscribe, wants_unsubscribe, subscribe_answered, unsubscribe_answered,
}

-- An answered subscription is not asked for again, also when the answers to two calls overlap: the
-- set holds the channel once, and an answered unsubscription takes it out and nothing else.
pub subscriptions :
    (channel other : Str) (p : RedisPubSub)
    → Sets.IsUnique p.subscribed_channels
    → let once = subscribe_answered channel true p in
      let twice = subscribe_answered channel true once in
      (wants_subscribe channel once ≡ false)
      × (length twice.subscribed_channels ≡ length once.subscribed_channels)
      × Sets.IsUnique once.subscribed_channels
      × (wants_unsubscribe other (unsubscribe_answered channel true once)
          ≡ (not (channel == other) && wants_unsubscribe other p))
unfolding subscribe_answered unsubscribe_answered wants_subscribe wants_unsubscribe
subscriptions channel other p u =
    let added = Sets.add channel p.subscribed_channels in
    (
      ground (arith, Sets.has-add channel channel p.subscribed_channels, eq_iff channel channel),
      ground (
        arith,
        Sets.length-add channel added,
        Sets.has-add channel channel p.subscribed_channels,
        eq_iff channel channel,
      ),
      Sets.add-IsUnique channel p.subscribed_channels u,
      ground (
        arith,
        Sets.has-remove channel other added,
        Sets.has-add channel other p.subscribed_channels,
      ),
    )
