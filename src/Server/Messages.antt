-- ===== src/Server/Messages.antt =====
-- The `message` handler of src/transport/WebSocketServer.ts: what a message does and is answered.
use live_r.Base.{
  ℕ, ◌≡◌, ◌≤◌, refl, sym, Bool, true, false, ◌&&◌, ◌||◌, not, List, [], ◌∷◌, leb, length, to_nat,
  arith, Bool-cases, inl, inr,
}
use live_r.Base.Text.{Str, codes}
use live_r.Base.Equality.{str_eq, nat_eq, ◌==◌, eq_iff}
use live_r.Base.Sets
use live_r.Protocol.{ClientMessage}
use live_r.Protocol
use live_r.Types.{UserData, Ws, Heap, Effect, sends_to}
use live_r.Types
use live_r.Rooms.{RoomManager, is_member}
use live_r.Rooms
use live_r.Rooms.Invariant.{rooms_of}
use live_r.Rooms.Subscribe.{is_member-subscribe}
use live_r.Rooms.Unsubscribe.{is_member-unsubscribe}
use live_r.PubSub.{publish_to_room}
use live_r.Server.{
  Options, Server, on_subscribe, on_unsubscribe, on_publish, on_ping, handle_message,
  limit_answered,
}
use live_r.Server.Open.{joins}

-- Whether some of the calls pass a message on: to a topic, or to Redis.
abbrev pub passes_on : List Effect → Bool
passes_on [] = false
passes_on (Types.publish ws topic payload ∷ es) = true
passes_on (Types.publish_app topic payload ∷ es) = true
passes_on (Types.publish_redis channel payload ∷ es) = true
passes_on (e ∷ es) = passes_on es

-- A subscription succeeds exactly while the user is below the limit of rooms. Then the user is a
-- member, the socket is subscribed to the topic and its object lists the room; else none of the
-- three changes. Either way the socket is sent one answer.
pub on_subscribe_outcome :
    (o : Options) (now : ℕ) (ws : Ws) (room : Str) (s : Server)
    → 1 ≤ s.rooms.max_rooms_per_user
    → let r = on_subscribe o now ws room s in
      let user = (s.user_data ws).user_id in
      let free = not (leb s.rooms.max_rooms_per_user (length (rooms_of user s.rooms))) in
      (is_member user room r.0.rooms ≡ (is_member user room s.rooms || free))
      × (joins ws room r.1 ≡ free)
      × (Sets.has room (r.0.user_data ws).rooms ≡ (Sets.has room (s.user_data ws).rooms || free))
      × (sends_to ws r.1 ≡ 1)
unfolding on_subscribe
on_subscribe_outcome o now ws room s pos =
    let user = (s.user_data ws).user_id in
    let member = is_member-subscribe now user room user room s.rooms pos in
    let listed = Sets.has-add room room (s.user_data ws).rooms in
    elim (Bool-cases (Rooms.subscribe now user room s.rooms).1) [
      | inl done ↦
          rw (sym member.0, done)
            (
              ground (arith, member.1, member.0, done, eq_iff user user, eq_iff room room),
              ground (arith, eq_iff ws ws, eq_iff room room),
              ground (arith, listed, eq_iff ws ws, eq_iff room room),
              ground (arith, eq_iff ws ws),
            )
      | inr denied ↦
          rw (sym member.0, denied)
            (
              ground (arith, member.1, member.0, denied),
              refl,
              ground arith,
              ground (arith, eq_iff ws ws),
            )
    ]

-- After `unsubscribe` the user is no member and the socket's object does not list the room; other
-- pairs stay as they were, and the socket is sent one answer, whether or not it was subscribed.
pub on_unsubscribe_outcome :
    (o : Options) (ws : Ws) (room user' room' : Str) (s : Server)
    → let r = on_unsubscribe o ws room s in
      let user = (s.user_data ws).user_id in
      (is_member user' room' r.0.rooms
        ≡ (is_member user' room' s.rooms && not (user == user' && room == room')))
      × (Sets.has room' (r.0.user_data ws).rooms
          ≡ (not (room == room') && Sets.has room' (s.user_data ws).rooms))
      × (sends_to ws r.1 ≡ 1)
unfolding on_unsubscribe
on_unsubscribe_outcome o ws room user' room' s = (
  (is_member-unsubscribe (s.user_data ws).user_id room user' room' s.rooms).1,
  ground (arith, eq_iff ws ws, Sets.has-remove room room' (s.user_data ws).rooms),
  ground (arith, eq_iff ws ws),
)

-- Whether a message is a publication.
abbrev pub is_publish : ClientMessage → Bool
is_publish (Protocol.publish room event data') = true
is_publish m = false

-- However a message comes to be handled, at once or after the rate limiter's answer: it is passed on
-- exactly if it is a publication, the limiter allows it and the socket has the permission `send`;
-- and the socket is sent one message exactly if it is not passed on.
pub limit_answered_outcome :
    (o : Options) (now : ℕ) (ws : Ws) (parsed : ClientMessage) (allowed : Bool) (s : Server)
    → let r = limit_answered o now ws parsed allowed s in
      let passed =
        allowed && (is_publish parsed && Sets.has (codes "send") (s.user_data ws).permissions) in
      (passes_on r.1 ≡ passed) × (sends_to ws r.1 ≡ to_nat (not passed))
unfolding limit_answered handle_message on_ping on_subscribe on_unsubscribe on_publish
    publish_to_room
limit_answered_outcome o now ws parsed false s = (refl, ground (arith, eq_iff ws ws))
limit_answered_outcome o now ws Protocol.ping true s = (refl, ground (arith, eq_iff ws ws))
limit_answered_outcome o now ws (Protocol.subscribe room) true s =
    (ground arith, ground (arith, eq_iff ws ws))
limit_answered_outcome o now ws (Protocol.unsubscribe room) true s =
    (ground arith, ground (arith, eq_iff ws ws))
limit_answered_outcome o now ws (Protocol.publish room event data') true s =
    (ground arith, ground (arith, eq_iff ws ws))
