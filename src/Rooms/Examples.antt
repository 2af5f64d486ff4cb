-- ===== src/Rooms/Examples.antt =====
-- Tests and instances for src/core/RoomManager.ts; the inputs follow tests/unit/RoomManager.test.ts.
use live_r.Base.{
  ◌≤◌, ◌≡◌, refl, false, List, [], ◌∷◌, length, arith, All, or_else, ltb, ◌↔◌, none, some, ◌&&◌,
  ◌||◌, not, leb,
}
use live_r.Base.Text.{Str, codes}
use live_r.Base.Equality.{str_eq, str_beq, ◌==◌}
use live_r.Base.Dict
use live_r.Base.Sets
use live_r.Rooms.{
  RoomManager, create, subscribe, unsubscribe, remove_user_from_all_rooms, is_member, room_count,
  get_member_count, has_room, get_members, get_rooms_for_user, get_all_rooms, get_room_info,
}
use live_r.Rooms.Invariant.{IsSynced, rooms_of}
use live_r.Rooms.Subscribe.{subscribe-IsSynced, is_member-subscribe}
use live_r.Rooms.Unsubscribe.{is_member-unsubscribe}
use live_r.Rooms.Leave.{is_member-leave}
use live_r.Rooms.Equivalence.{unsubscribe_each, leave_equals_unsubscribes}
use live_r.Rooms.Relation.{
  Call, subscribes, unsubscribes, leaves, run, run-IsSynced, max-run, view, trace, trace-spec,
  spec_trace, no_rooms,
}
use live_r.Rooms.Queries.{room_life, get_all_rooms-get_room_info}

abbrev ann : Str
ann = codes "ann"

abbrev bob : Str
bob = codes "bob"

abbrev red : Str
red = codes "red"

abbrev blue : Str
blue = codes "blue"

abbrev history : List Call
history =
    subscribes 1 ann red ∷ subscribes 2 bob red ∷ subscribes 3 ann blue ∷ unsubscribes bob red ∷ []

-- ann in red and blue, at her limit of two; nobody else.
abbrev two_rooms : RoomManager
two_rooms = run (create 2) history

two_rooms-IsSynced : IsSynced two_rooms
two_rooms-IsSynced = run-IsSynced 2 history (omega arith)

two_rooms_limit : 1 ≤ two_rooms.max_rooms_per_user
unfolding create
two_rooms_limit = omega (arith, max-run (create 2) history)

limit_refuses : (subscribe 4 ann (codes "green") two_rooms).1 ≡ false
unfolding run create subscribe unsubscribe Dict.get Dict.set Dict.delete Sets.add Sets.remove
    str_beq
limit_refuses = refl

empty_room_goes :
    (room_count (unsubscribe ann red two_rooms).0 ≡ 1) × (get_member_count red two_rooms ≡ 1)
unfolding run create subscribe unsubscribe room_count get_member_count Dict.get Dict.set Dict.delete
    Sets.add Sets.remove str_beq
empty_room_goes = (refl, refl)

run-IsSynced_instance : IsSynced (run (create 2) (leaves ann ∷ history))
run-IsSynced_instance = run-IsSynced 2 (leaves ann ∷ history) (omega arith)

trace-spec_example :
    (view (trace (create 2) history).0 ≡ (spec_trace 2 no_rooms history).0)
    × ((trace (create 2) history).1 ≡ (spec_trace 2 no_rooms history).1)
trace-spec_example = trace-spec 2 history (omega arith)

subscribe-IsSynced_example : IsSynced (subscribe 5 bob blue two_rooms).0
subscribe-IsSynced_example =
    subscribe-IsSynced 5 bob blue two_rooms two_rooms_limit two_rooms-IsSynced

is_member-subscribe_instance :
    ((subscribe 5 bob blue two_rooms).1
      ≡ not (leb two_rooms.max_rooms_per_user (length (rooms_of bob two_rooms))))
    × (is_member bob blue (subscribe 5 bob blue two_rooms).0 ≡ (
        is_member bob blue two_rooms
        || (not (leb two_rooms.max_rooms_per_user (length (rooms_of bob two_rooms)))
            && (bob == bob && blue == blue))))
is_member-subscribe_instance = is_member-subscribe 5 bob blue bob blue two_rooms two_rooms_limit

is_member-unsubscribe_instance :
    ((unsubscribe ann red two_rooms).1 ≡ is_member ann red two_rooms)
    × (is_member ann blue (unsubscribe ann red two_rooms).0
        ≡ (is_member ann blue two_rooms && not (ann == ann && red == blue)))
is_member-unsubscribe_instance = is_member-unsubscribe ann red ann blue two_rooms

is_member-leave_instance :
    ((remove_user_from_all_rooms ann two_rooms).1 ≡ rooms_of ann two_rooms)
    × (is_member bob red (remove_user_from_all_rooms ann two_rooms).0
        ≡ (not (ann == bob) && is_member bob red two_rooms))
is_member-leave_instance = is_member-leave ann bob red two_rooms two_rooms-IsSynced

room_life_instance :
    (has_room red two_rooms ≡ ltb 0 (get_member_count red two_rooms))
    × ((get_members red two_rooms ≡ none) ↔ (get_member_count red two_rooms ≡ 0))
    × (is_member ann red two_rooms ≡ Sets.has red (or_else [] (get_rooms_for_user ann two_rooms)))
room_life_instance = room_life ann red two_rooms two_rooms-IsSynced

get_all_rooms-get_room_info_instance :
    (length (get_all_rooms two_rooms) ≡ room_count two_rooms)
    × All
        (λ room. (get_room_info room.id two_rooms ≡ some room) × (1 ≤ length room.members))
        (get_all_rooms two_rooms)
get_all_rooms-get_room_info_instance = get_all_rooms-get_room_info two_rooms two_rooms-IsSynced

leave_equals_unsubscribes_example :
    is_member ann red (remove_user_from_all_rooms ann two_rooms).0
    ≡ is_member ann red
        (unsubscribe_each ann (remove_user_from_all_rooms ann two_rooms).1 two_rooms)
leave_equals_unsubscribes_example =
    leave_equals_unsubscribes ann ann red (remove_user_from_all_rooms ann two_rooms).1 two_rooms
      two_rooms-IsSynced (λ r. refl)
