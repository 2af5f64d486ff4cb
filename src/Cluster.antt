-- ===== src/Cluster.antt =====
-- Several instances joined by Redis: what MessageRouter (src/core/MessageRouter.ts) publishes comes
-- to every instance whose subscriber has the channel, src/redis/RedisPubSub.ts. Redis itself is the
-- parameter `inbox`: the messages that a subscriber of some channels gets of some publications.
pub mod Delivery
pub mod Copies
mod Examples
use live_r.Base.{◌≡◌, Bool, true, false, List, [], ◌∷◌, ◌++◌, if◌then◌else◌}
use live_r.Base.Text.{Str}
use live_r.Base.Equality.{str_eq}
use live_r.Base.Sets
use live_r.Types.{Effect, publish_redis}
use live_r.Connections.{ConnectionManager}
use live_r.PubSub.{RedisPubSub, handle_message}

-- `publisher.publish(channel, message)`, in order.
abbrev pub published : List Effect → List (Str × Str)
published [] = []
published (publish_redis channel message ∷ es) = (channel, message) ∷ published es
published (e ∷ es) = published es

-- The messages published on the channels of a subscriber, in order, whoever publishes them.
abbrev pub subscribed_to : List Str → List (Str × Str) → List (Str × Str)
subscribed_to channels [] = []
subscribed_to channels ((channel, message) ∷ rest) =
    let kept = subscribed_to channels rest in
    if Sets.has channel channels then (channel, message) ∷ kept else kept

-- Some of a list, by a mark for each.
abbrev pub kept : List Bool → List (Str × Str) → List (Str × Str)
kept [] sent = []
kept (mark ∷ marks) [] = []
kept (mark ∷ marks) (m ∷ sent) = let rest = kept marks sent in if mark then m ∷ rest else rest

-- What Redis documents of Pub/Sub: a message is delivered at most once, to the subscribers of its
-- channel, in order. One that cannot be published, which `publish…` logs and forgets, or that comes
-- while a subscriber is away is lost.
abbrev pub IsAtMostOnce : (List Str → List (Str × Str) → List (Str × Str)) → Type 0
IsAtMostOnce inbox =
    (channels : List Str) (sent : List (Str × Str))
    → (marks : List Bool) × (inbox channels sent ≡ kept marks (subscribed_to channels sent))

-- `subscriber.on('message', …)` for each message.
unfoldable pub on_messages : List (Str × Str) → ConnectionManager → List Effect
on_messages [] m = []
on_messages ((channel, message) ∷ rest) m =
    (handle_message channel message m).0 ++ on_messages rest m

-- What an instance does on its own sockets about calls that were made anywhere.
unfoldable pub receives :
    (List Str → List (Str × Str) → List (Str × Str))
    → RedisPubSub
    → ConnectionManager
    → List Effect
    → List Effect
unfolding on_messages
receives inbox p m effects = on_messages (inbox p.subscribed_channels (published effects)) m
