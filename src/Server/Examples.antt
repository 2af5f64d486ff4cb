-- ===== src/Server/Examples.antt =====
-- Instances for src/transport/WebSocketServer.ts: sockets 0 and 1 of ann and 2 of bob, all with a
-- token for the room `news`.
use live_r.Base.{
  ℕ, ◌+◌, ◌≡◌, ◌≢◌, refl, true, false, ◌&&◌, ◌||◌, not, [], ◌∷◌, Option, none, some, if◌then◌else◌,
  leb, length, to_nat, arith,
}
use live_r.Base.Text.{Str, codes}
use live_r.Base.Equality.{str_eq, str_beq, nat_eq, ◌==◌}
use live_r.Base.Dict
use live_r.Base.Sets
use live_r.Auth.{AuthResult, verify}
use live_r.Protocol
use live_r.Types.{Ws, Heap, sends_to}
use live_r.Connections
use live_r.Connections.Invariant.{DistinctIds, registered}
use live_r.Rooms
use live_r.Rooms.{is_member}
use live_r.Rooms.Invariant.{rooms_of}
use live_r.Server.{
  Options, Server, on_open, on_close, on_subscribe, on_unsubscribe, on_message, limit_answered,
}
use live_r.Server.Upgrade.{upgrade, admitted, accepted, seat, is_dropped, upgrade_admits}
use live_r.Server.Invariant.{IsServing}
use live_r.Server.Keeps.{left_by}
use live_r.Server.Reach.{Reachable, start, opened, received, closed, start_of, Reachable-IsServing}
use live_r.Server.Open.{joins}
use live_r.Server.Messages.{
  passes_on, on_subscribe_outcome, on_unsubscribe_outcome, limit_answered_outcome,
}
use live_r.Server.Close.{on_close_outcome, close_drops_other, refused_drops_other}

abbrev ann : Str
ann = codes "ann"

abbrev news : Str
news = codes "news"

abbrev sockets : Heap
sockets w = record {
  user_id = elim (w == 2) [ true ↦ codes "bob" | false ↦ ann ];
  connection_id = w ∷ [];
  rooms = news ∷ [];
  permissions = codes "send" ∷ [];
  connected_at = 0;
  last_pong = 0;
}

sockets_distinct : DistinctIds sockets
sockets_distinct v w e = ground arith

abbrev all : Options
all = record {
  rate_limiter = true;
  metrics = true;
  pub_sub = true;
  presence = true;
  room_sync = true;
}

-- Room for `max` sockets.
abbrev empty : ℕ → Server
empty max = start_of sockets max 10 0

empty-Reachable : (max : ℕ) → Reachable all (empty max)
empty-Reachable max = start sockets max 10 0 sockets_distinct (omega arith)

empty_unregistered : (max : ℕ) (w : Ws) → registered sockets w (empty max).connections ≡ false
unfolding Connections.create Dict.get
empty_unregistered max w = refl

-- Ann's first socket is open.
abbrev first : ℕ → Server
first max = (on_open all 1 0 (empty max)).0

first-Reachable : (max : ℕ) → Reachable all (first max)
first-Reachable max = opened 1 0 (empty max) (empty-Reachable max) (empty_unregistered max 0)

first-IsServing : (max : ℕ) → IsServing (first max)
first-IsServing max = Reachable-IsServing all (first max) (first-Reachable max)

first_other_unregistered : registered (first 1).user_data 1 (first 1).connections ≡ false
unfolding on_open Connections.create Connections.add Dict.get Dict.set Sets.add str_beq
first_other_unregistered = refl

first-registered : registered (first 1).user_data 0 (first 1).connections ≡ true
unfolding on_open Connections.create Connections.add Dict.get Dict.set Sets.add str_beq
first-registered = refl

first_full : Connections.size (first 1).connections ≡ (first 1).connections.max_connections
unfolding on_open Connections.create Connections.add Connections.size Dict.get Dict.set Sets.add
    str_beq
first_full = refl

first_users : ((first 1).user_data 1).user_id ≡ ((first 1).user_data 0).user_id
unfolding on_open Connections.create Connections.add Dict.get Dict.set Sets.add str_beq
first_users = refl

Reachable-IsServing_example :
    IsServing
      (on_close all 0 (left_by (on_message all 2 0 (some (Protocol.subscribe news)) (first 3)))).0
Reachable-IsServing_example =
    Reachable-IsServing all
      (on_close all 0 (left_by (on_message all 2 0 (some (Protocol.subscribe news)) (first 3)))).0
      (closed 0 (left_by (on_message all 2 0 (some (Protocol.subscribe news)) (first 3)))
        (received 2 0 (some (Protocol.subscribe news)) (first 3) (first-Reachable 3)))

on_subscribe_outcome_example :
    let r = on_subscribe all 2 0 news (empty 3) in
    let free =
      not (leb (empty 3).rooms.max_rooms_per_user (length (rooms_of ann (empty 3).rooms))) in
    (is_member ann news r.0.rooms ≡ (is_member ann news (empty 3).rooms || free))
    × (joins 0 news r.1 ≡ free)
    × (Sets.has news (r.0.user_data 0).rooms ≡ (Sets.has news (sockets 0).rooms || free))
    × (sends_to 0 r.1 ≡ 1)
unfolding Rooms.create
on_subscribe_outcome_example = on_subscribe_outcome all 2 0 news (empty 3) (omega arith)

on_unsubscribe_outcome_instance :
    let r = on_unsubscribe all 0 news (empty 3) in
    (is_member ann news r.0.rooms
      ≡ (is_member ann news (empty 3).rooms && not (ann == ann && news == news)))
    × (Sets.has news (r.0.user_data 0).rooms
        ≡ (not (news == news) && Sets.has news (sockets 0).rooms))
    × (sends_to 0 r.1 ≡ 1)
on_unsubscribe_outcome_instance = on_unsubscribe_outcome all 0 news ann news (empty 3)

limit_answered_outcome_example :
    let r = limit_answered all 2 0 (Protocol.publish news (codes "e") none) true (empty 3) in
    let passed = true && (true && Sets.has (codes "send") (sockets 0).permissions) in
    (passes_on r.1 ≡ passed) × (sends_to 0 r.1 ≡ to_nat (not passed))
limit_answered_outcome_example =
    limit_answered_outcome all 2 0 (Protocol.publish news (codes "e") none) true (empty 3)

on_close_outcome_example :
    let r = on_close all 0 (first 1) in
    (registered (first 1).user_data 1 r.0.connections
      ≡ (not (nat_eq.same 0 1) && registered (first 1).user_data 1 (first 1).connections))
    × (is_member ann news r.0.rooms
        ≡ (not (((first 1).user_data 0).user_id == ann) && is_member ann news (first 1).rooms))
    × (r.0.metrics.connections_closed ≡ (first 1).metrics.connections_closed + to_nat true)
on_close_outcome_example = on_close_outcome all 0 1 ann news (first 1) (first-IsServing 1)

-- Both of ann's sockets are open.
abbrev pair : Server
pair = (on_open all 2 1 (first 2)).0

second_unregistered : registered (first 2).user_data 1 (first 2).connections ≡ false
unfolding on_open Connections.create Connections.add Dict.get Dict.set Sets.add str_beq
second_unregistered = refl

pair-IsServing : IsServing pair
pair-IsServing =
    Reachable-IsServing all pair (opened 2 1 (first 2) (first-Reachable 2) second_unregistered)

pair-registered : registered pair.user_data 0 pair.connections ≡ true
unfolding on_open Connections.create Connections.add Dict.get Dict.set Sets.add str_beq
pair-registered = refl

pair_users : (pair.user_data 1).user_id ≡ (pair.user_data 0).user_id
unfolding on_open Connections.create Connections.add Dict.get Dict.set Sets.add str_beq
pair_users = refl

other_socket : ◌≢◌ {A = Ws} 1 0
other_socket e = ground arith

close_drops_other_example :
    let r = on_close all 1 pair in
    (registered pair.user_data 0 r.0.connections ≡ true)
    × (is_member (pair.user_data 0).user_id news r.0.rooms ≡ false)
close_drops_other_example =
    close_drops_other all 1 0 news pair pair-IsServing other_socket pair_users pair-registered

refused_drops_other_example :
    let r = on_open all 2 1 (first 1) in
    (registered (first 1).user_data 0 r.0.connections ≡ true)
    × (is_member ((first 1).user_data 0).user_id news r.0.rooms ≡ false)
    × (r.0.metrics.connections_opened ≡ (first 1).metrics.connections_opened)
    × (r.0.metrics.connections_closed ≡ (first 1).metrics.connections_closed + to_nat true)
refused_drops_other_example =
    refused_drops_other all 2 1 0 news (first 1) (first-IsServing 1) first_other_unregistered
      first_full first_users first-registered

-- The token is the name of its user.
abbrev by_name : Str → Option AuthResult
by_name = verify (λ token. some record { sub = some token; rooms = none; permissions = none })

upgrade_admits_example :
    let r = upgrade 1 by_name 3 (codes "c") false (some ann) (empty 1) in
    (admitted r
      ≡ (if false then none else seat 1 3 (codes "c") (empty 1) (accepted by_name (some ann))))
    × (is_dropped r ≡ false)
upgrade_admits_example = upgrade_admits 1 3 by_name (codes "c") false (some ann) (empty 1)
