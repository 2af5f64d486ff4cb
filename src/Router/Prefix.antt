-- ===== src/Router/Prefix.antt =====
-- src/core/MessageRouter.ts against docs/API.md and docs/WEBSOCKET-PROTOCOL.md, by which a client
-- subscribes to `room:<roomId>` and a target `room:<roomId>` reaches all subscribers of the room.
use live_r.Base.{
  ℕ, ◌≡◌, Bool, true, false, [], ◌∷◌, ◌++◌, Option, if◌then◌else◌, arith, length, ap, Bool-cases,
  inl, inr, ◌∙◌, refl,
}
use live_r.Base.Text.{Str, codes, starts_with}
use live_r.Base.Equality.{str_eq, ◌==◌, eq_iff}
use live_r.Base.Sets
use live_r.Base.Dict
use live_r.Protocol.Values.{Json}
use live_r.Protocol.{message, serialize}
use live_r.Types.{publishes_to, publish_app}
use live_r.Rooms.{RoomManager, subscribe, is_member, get_member_count, at_limit}
use live_r.Rooms.Invariant.{is_member-has, get_member_count-length, members_of}
use live_r.Rooms.Subscribe.{members_of-subscribe}
use live_r.PubSub.{publish_to_room}
use live_r.Router.{Router, send_to_target}

longer : (name : Str) → (codes "room:" ++ name == name) ≡ false
longer name = elim (Bool-cases (codes "room:" ++ name == name)) [
  | inl e ↦ absurd (omega (arith, ap length ((eq_iff (codes "room:" ++ name) name).0 e)))
  | inr ne ↦ ne
]

shorter : (name : Str) → (name == codes "room:" ++ name) ≡ false
shorter name = elim (Bool-cases (name == codes "room:" ++ name)) [
  | inl e ↦ absurd (omega (arith, ap length ((eq_iff name (codes "room:" ++ name)).0 e)))
  | inr ne ↦ ne
]

not_full :
    (now : ℕ) (user room : Str) (m : RoomManager)
    → (subscribe now user room m).1 ≡ true
    → at_limit (Dict.get user m.user_rooms) m.max_rooms_per_user ≡ false
unfolding subscribe
not_full now user room m done = ground arith

other_count :
    (now : ℕ) (user name : Str) (m : RoomManager)
    → at_limit (Dict.get user m.user_rooms) m.max_rooms_per_user ≡ false
    → get_member_count name (subscribe now user (codes "room:" ++ name) m).0
      ≡ get_member_count name m
other_count now user name m free = rw (
  get_member_count-length name (subscribe now user (codes "room:" ++ name) m).0,
  get_member_count-length name m,
  members_of-subscribe now user (codes "room:" ++ name) m free name,
  longer name,
)

joined :
    (now : ℕ) (user room : Str) (m : RoomManager)
    → at_limit (Dict.get user m.user_rooms) m.max_rooms_per_user ≡ false
    → is_member user room (subscribe now user room m).0 ≡ true
joined now user room m free =
    rw
      (
        is_member-has user room (subscribe now user room m).0,
        members_of-subscribe now user room m free room,
      )
      (ground
        (arith, eq_iff room room, Sets.has-add user user (members_of room m), eq_iff user user))

-- A room's message goes to the topic of its name, never to that of the name with `room:` in front.
unpublished :
    (name payload : Str) (redis : Bool)
    → publishes_to
        (codes "room:" ++ name)
        (publish_app name payload ∷ (if redis then publish_to_room name payload else []))
      ≡ 0
unfolding publish_to_room
unpublished name payload true = ground (arith, shorter name)
unpublished name payload false = ground (arith, shorter name)

-- A client that has subscribed as documented is missed: after a subscription to `room:<name>` that
-- is answered by success, and with nobody in the room `<name>`, a message to the target
-- `room:<name>` succeeds, is counted as delivered to nobody, and is not published to the topic that
-- the client subscribed to.
pub documented_room_missed :
    (c : Router) (now : ℕ) (user name event : Str) (data' : Option Json) (m : RoomManager)
    → (subscribe now user (codes "room:" ++ name) m).1 ≡ true
    → get_member_count name m ≡ 0
    → let m' = (subscribe now user (codes "room:" ++ name) m).0 in
      let r = send_to_target (record c { rooms = m' }) (codes "room:" ++ name) event data' in
      (is_member user (codes "room:" ++ name) m' ≡ true)
      × (r.1.success ≡ true)
      × (r.1.delivered ≡ 0)
      × (publishes_to (codes "room:" ++ name) r.0 ≡ 0)
unfolding send_to_target starts_with publish_to_room
documented_room_missed c now user name event data' m done nobody =
    let free = not_full now user (codes "room:" ++ name) m done in
    (
      joined now user (codes "room:" ++ name) m free,
      refl,
      other_count now user name m free ∙ nobody,
      unpublished name (serialize (message (codes "room:" ++ name) event data' c.now)) c.redis,
    )
