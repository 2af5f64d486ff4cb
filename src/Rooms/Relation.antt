-- ===== src/Rooms/Relation.antt =====
-- src/core/RoomManager.ts against an abstract view: the relation "user is in room", and the number
-- of rooms of each user. The view knows neither of the two maps nor of any order.
use live_r.Base.{
  ℕ, ◌+◌, ◌-◌, ◌≤◌, ◌≡◌, refl, Bool, false, ◌&&◌, ◌||◌, List, [], ◌∷◌, length, arith, if◌then◌else◌,
  leb, not, fun_ext, ap, ap₂, ◌∙◌, inl, inr, Bool-cases, Option-cases,
}
use live_r.Base.Text.{Str}
use live_r.Base.Equality.{str_eq, ◌==◌, eq_iff}
use live_r.Base.Sets
use live_r.Base.Dict
use live_r.Rooms.{
  RoomManager, create, subscribe, unsubscribe, remove_user_from_all_rooms, is_member, at_limit,
}
use live_r.Rooms.Invariant.{IsSynced, rooms_of, create-IsSynced, is_member-has, has-rooms_of}
use live_r.Rooms.Subscribe.{
  subscribe-IsSynced, is_member-subscribe, subscribe_refused, rooms_of-subscribe,
}
use live_r.Rooms.Unsubscribe.{
  unsubscribe-IsSynced, is_member-unsubscribe, unsubscribe_missing, rooms_of-unsubscribe,
}
use live_r.Rooms.Leave.{leave-IsSynced, is_member-leave, rooms_of-leave, max-leave}

-- The calls that change the state; `now` is the clock at the call.
pub data Call : Type 0 where
  subscribes : ℕ → Str → Str → Call
  unsubscribes : Str → Str → Call
  leaves : Str → Call

pub data Answer : Type 0 where
  flag : Bool → Answer
  -- A list of rooms, by what it holds.
  rooms : (Str → Bool) → Answer

unfoldable pub step : RoomManager → Call → RoomManager × Answer
step m (subscribes now u r) = let (m', done) = subscribe now u r m in (m', flag done)
step m (unsubscribes u r) = let (m', done) = unsubscribe u r m in (m', flag done)
step m (leaves u) =
    let (m', removed) = remove_user_from_all_rooms u m in (m', rooms (λ r. Sets.has r removed))

unfoldable pub run : RoomManager → List Call → RoomManager
unfolding step
run m [] = m
run m (c ∷ cs) = run (step m c).0 cs

pub record View : Type 0 where
  pub held : Str → Str → Bool
  pub count : Str → ℕ

abbrev pub spec : ℕ → View → Call → View × Answer
spec max s (subscribes now u r) =
    let full = leb max (s.count u) in
    (
      record {
        held = λ u' r'. s.held u' r' || (not full && (u == u' && r == r'));
        count =
            λ u'. if not full && (u == u' && not (s.held u r)) then s.count u' + 1 else s.count u';
      },
      flag (not full),
    )
spec max s (unsubscribes u r) = (
  record {
    held = λ u' r'. s.held u' r' && not (u == u' && r == r');
    count = λ u'. if u == u' && s.held u r then s.count u' - 1 else s.count u';
  },
  flag (s.held u r),
)
spec max s (leaves u) = (
  record {
    held = λ u' r'. not (u == u') && s.held u' r';
    count = λ u'. if u == u' then 0 else s.count u';
  },
  rooms (λ r. s.held u r),
)

abbrev pub view : RoomManager → View
view m = record { held = λ u r. is_member u r m; count = λ u. length (rooms_of u m) }

step-IsSynced :
    (m : RoomManager) (c : Call) → 1 ≤ m.max_rooms_per_user → IsSynced m → IsSynced (step m c).0
unfolding step
step-IsSynced m (subscribes now u r) pos v = subscribe-IsSynced now u r m pos v
step-IsSynced m (unsubscribes u r) pos v = unsubscribe-IsSynced u r m v
step-IsSynced m (leaves u) pos v = leave-IsSynced u m v

pub max-step : (m : RoomManager) (c : Call) → (step m c).0.max_rooms_per_user ≡ m.max_rooms_per_user
unfolding step subscribe unsubscribe
max-step m (subscribes now u r) = ground arith
max-step m (unsubscribes u r) = ground arith
max-step m (leaves u) = max-leave u m

pub max-run :
    (m : RoomManager) (cs : List Call) → (run m cs).max_rooms_per_user ≡ m.max_rooms_per_user
unfolding run
max-run m [] = refl
max-run m (c ∷ cs) = max-run (step m c).0 cs ∙ max-step m c

run_keeps :
    (m : RoomManager) (cs : List Call) → 1 ≤ m.max_rooms_per_user → IsSynced m → IsSynced (run m cs)
unfolding run
run_keeps m [] pos v = v
run_keeps m (c ∷ cs) pos v =
    run_keeps (step m c).0 cs (omega (arith, max-step m c)) (step-IsSynced m c pos v)

-- With a limit of at least one room, every history of calls leaves the two maps consistent: they
-- tell the same pairs, hold no empty entry and no repetition, and no user is past the limit.
pub run-IsSynced : (max : ℕ) (cs : List Call) → 1 ≤ max → IsSynced (run (create max) cs)
run-IsSynced max cs pos = run_keeps (create max) cs (unfold create in pos) (create-IsSynced max)

-- The number of rooms of a user after each operation.
module _ (m : RoomManager) (v : IsSynced m) where
  count-subscribe :
      (now : ℕ) (u r u' : Str)
      → 1 ≤ m.max_rooms_per_user
      → length (rooms_of u' (subscribe now u r m).0) ≡ (
          if not (leb m.max_rooms_per_user (length (rooms_of u m)))
            && (u == u' && not (is_member u r m))
          then length (rooms_of u' m) + 1
          else length (rooms_of u' m))
  count-subscribe now u r u' pos =
      elim (Bool-cases (at_limit (Dict.get u m.user_rooms) m.max_rooms_per_user)) [
        | inl full ↦ rw (subscribe_refused now u r m full) (unfold at_limit in ground arith)
        | inr free ↦
            rw (rooms_of-subscribe now u r m free u', is_member-has u r m, v.agree u r)
              (unfold at_limit in ground (arith, eq_iff u u', Sets.length-add r (rooms_of u m)))
      ]

  count-unsubscribe :
      (u r u' : Str)
      → length (rooms_of u' (unsubscribe u r m).0) ≡ (
          if u == u' && is_member u r m then length (rooms_of u' m) - 1 else length (rooms_of u' m))
  count-unsubscribe u r u' = elim (Option-cases (Dict.get r m.rooms)) [
    | inl missing ↦
        rw
          (
            unsubscribe_missing u r m missing,
            is_member-has u r m,
            v.agree u r,
            has-rooms_of u r m v missing,
          )
          (ground arith)
    | inr (room, found) ↦
        rw (rooms_of-unsubscribe u r m room found u', is_member-has u r m, v.agree u r)
          (ground (arith, eq_iff u u', Sets.length-remove r (rooms_of u m) (v.room_sets u)))
  ]

  count-leave :
      (u u' : Str)
      → length (rooms_of u' (remove_user_from_all_rooms u m).0)
        ≡ (if u == u' then 0 else length (rooms_of u' m))
  count-leave u u' = rw (rooms_of-leave u m u') (ground arith)

View_eq :
    {s t : View}
    → ((u r : Str) → s.held u r ≡ t.held u r)
    → ((u : Str) → s.count u ≡ t.count u)
    → s ≡ t
View_eq h k = λ i. record { held = λ u r. h u r i; count = λ u. k u i }

-- From consistent maps, each call changes the view and answers exactly as the abstract view says.
pub step-spec :
    (m : RoomManager) (c : Call)
    → 1 ≤ m.max_rooms_per_user
    → IsSynced m
    → (view (step m c).0 ≡ (spec m.max_rooms_per_user (view m) c).0)
      × ((step m c).1 ≡ (spec m.max_rooms_per_user (view m) c).1)
unfolding step
step-spec m (subscribes now u r) pos v = (
  View_eq (λ u' r'. (is_member-subscribe now u r u' r' m pos).1)
      (λ u'. count-subscribe m v now u r u' pos),
  ap flag (is_member-subscribe now u r u r m pos).0,
)
step-spec m (unsubscribes u r) pos v = (
  View_eq (λ u' r'. (is_member-unsubscribe u r u' r' m).1) (λ u'. count-unsubscribe m v u r u'),
  ap flag (is_member-unsubscribe u r u r m).0,
)
step-spec m (leaves u) pos v = (
  View_eq (λ u' r'. (is_member-leave u u' r' m v).1) (λ u'. count-leave m v u u'),
  ap rooms
      (fun_ext (λ r. rw ((is_member-leave u u r m v).0, is_member-has u r m, v.agree u r) refl)),
)

-- A history of calls with its answers, and the same over the abstract view.
unfoldable pub trace : RoomManager → List Call → RoomManager × List Answer
unfolding step
trace m [] = (m, [])
trace m (c ∷ cs) = let (m', a) = step m c in let (m'', answers) = trace m' cs in (m'', a ∷ answers)

abbrev pub spec_trace : ℕ → View → List Call → View × List Answer
spec_trace max s [] = (s, [])
spec_trace max s (c ∷ cs) =
    let (s', a) = spec max s c in let (s'', answers) = spec_trace max s' cs in (s'', a ∷ answers)

trace_spec :
    (m : RoomManager) (cs : List Call) (max : ℕ) (s : View)
    → m.max_rooms_per_user ≡ max
    → view m ≡ s
    → 1 ≤ max
    → IsSynced m
    → (view (trace m cs).0 ≡ (spec_trace max s cs).0) × ((trace m cs).1 ≡ (spec_trace max s cs).1)
unfolding trace
trace_spec m [] max s same seen pos v = (seen, refl)
trace_spec m (c ∷ cs) max s same seen pos v =
    let now = step-spec m c (rw same pos) v in
    let now' : (view (step m c).0 ≡ (spec max s c).0) × ((step m c).1 ≡ (spec max s c).1) = (
      now.0 ∙ ap₂ (λ k t. (spec k t c).0) same seen,
      now.1 ∙ ap₂ (λ k t. (spec k t c).1) same seen,
    ) in
    let rest =
      trace_spec (step m c).0 cs max (spec max s c).0 (max-step m c ∙ same) now'.0 pos
        (step-IsSynced m c (rw same pos) v) in
    (rest.0, ap₂ ◌∷◌ now'.1 rest.1)

abbrev pub no_rooms : View
no_rooms = record { held = λ u r. false; count = λ u. 0 }

-- A new manager with a limit of at least one room refines the abstract view: every history of
-- calls has the answers that the view gives, and ends in the view's memberships and counts.
pub trace-spec :
    (max : ℕ) (cs : List Call)
    → 1 ≤ max
    → (view (trace (create max) cs).0 ≡ (spec_trace max no_rooms cs).0)
      × ((trace (create max) cs).1 ≡ (spec_trace max no_rooms cs).1)
trace-spec max cs pos =
    trace_spec (create max) cs max no_rooms (unfold create in refl)
      (unfold create is_member Dict.get in refl) pos (create-IsSynced max)
