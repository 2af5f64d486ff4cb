-- ===== src/Rooms/Equivalence.antt =====
-- `removeUserFromAllRooms` of src/core/RoomManager.ts against `unsubscribe`.
use live_r.Base.{◌≡◌, sym, ◌∙◌, ap, not, ◌&&◌, List, [], ◌∷◌, arith}
use live_r.Base.Text.{Str}
use live_r.Base.Equality.{str_eq, ◌==◌, eq_iff}
use live_r.Base.Sets
use live_r.Rooms.{RoomManager, unsubscribe, is_member, remove_user_from_all_rooms}
use live_r.Rooms.Invariant.{IsSynced, is_member-has}
use live_r.Rooms.Unsubscribe.{is_member-unsubscribe}
use live_r.Rooms.Leave.{is_member-leave}

-- One call of `unsubscribe` after another.
abbrev pub unsubscribe_each : Str → List Str → RoomManager → RoomManager
unsubscribe_each u [] m = m
unsubscribe_each u (r ∷ rs) m = unsubscribe_each u rs (unsubscribe u r m).0

is_member-unsubscribe_each :
    (u v j : Str) (rs : List Str) (m : RoomManager)
    → is_member v j (unsubscribe_each u rs m) ≡ (is_member v j m && not (u == v && Sets.has j rs))
unfolding Sets.has
is_member-unsubscribe_each u v j [] m = ground arith
is_member-unsubscribe_each u v j (r ∷ rs) m = ground (
  arith,
  is_member-unsubscribe_each u v j rs (unsubscribe u r m).0,
  (is_member-unsubscribe u r v j m).1,
)

-- From consistent maps, `removeUserFromAllRooms` does the same as one call of `unsubscribe` for each
-- of the rooms that it answers, in any order: who is a member of which room afterwards agrees.
pub leave_equals_unsubscribes :
    (u v j : Str) (rs : List Str) (m : RoomManager)
    → IsSynced m
    → ((r : Str) → Sets.has r rs ≡ Sets.has r (remove_user_from_all_rooms u m).1)
    → is_member v j (remove_user_from_all_rooms u m).0 ≡ is_member v j (unsubscribe_each u rs m)
leave_equals_unsubscribes u v j rs m i same =
    let left = is_member-leave u v j m i in
    let listed : Sets.has j rs ≡ is_member u j m =
      same j ∙ ap (Sets.has j) left.0 ∙ sym (i.agree u j) ∙ sym (is_member-has u j m) in
    ground (
      arith,
      left.1,
      is_member-unsubscribe_each u v j rs m,
      listed,
      eq_iff u v,
      ap (λ w. is_member w j m) {x = u} {y = v},
    )
