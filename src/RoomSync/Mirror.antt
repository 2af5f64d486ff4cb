-- ===== src/RoomSync/Mirror.antt =====
-- src/redis/RedisRoomSync.ts: the sets of the rooms and those of the users tell the same pairs.
use live_r.Base.{
  ◌≡◌, ◌≤◌, refl, ap, true, false, ◌&&◌, ◌||◌, not, List, [], ◌∷◌, ◌++◌, length, length-append,
  append_cancel, arith, ◌∙◌,
}
use live_r.Base.Text.{Str, codes}
use live_r.Base.Equality.{str_eq, str_beq, ◌==◌, eq_iff}
use live_r.Base.Sets
use live_r.Redis.{Redis, IsRedis}
use live_r.RoomSync.{members_key, rooms_key, add_member, remove_member, srem_each, leave}

cancel_right : (xs ys zs : Str) → xs ++ zs ≡ ys ++ zs → xs ≡ ys
cancel_right [] [] zs e = refl
cancel_right [] (y ∷ ys) zs e = absurd (omega (arith, ap length e, length-append (y ∷ ys) zs))
cancel_right (x ∷ xs) [] zs e = absurd (omega (arith, ap length e, length-append (x ∷ xs) zs))
cancel_right (x ∷ xs) (y ∷ ys) zs e = ground (arith, cancel_right xs ys zs, e)

-- A name between a fixed head and a fixed tail is read back, whatever characters it holds.
framed : (p q a b : Str) → (p ++ (a ++ q) == p ++ (b ++ q)) ≡ (a == b)
framed p q a b = ground (
  arith,
  eq_iff a b,
  eq_iff (p ++ (a ++ q)) (p ++ (b ++ q)),
  ap (λ (c : Str). p ++ (c ++ q)) {x = a} {y = b},
  back,
)
  where
    back : p ++ (a ++ q) ≡ p ++ (b ++ q) → a ≡ b
    back e = cancel_right a b q (append_cancel p e)

-- So the keys of two rooms differ, and those of two users.
pub same_members_key : (a b : Str) → (members_key a == members_key b) ≡ (a == b)
unfolding members_key
same_members_key a b = framed (codes "room:") (codes ":members") a b

pub same_rooms_key : (a b : Str) → (rooms_key a == rooms_key b) ≡ (a == b)
unfolding rooms_key
same_rooms_key a b = framed (codes "user:") (codes ":rooms") a b

pub other_key : (a b : Str) → (members_key a == rooms_key b) ≡ false
unfolding members_key rooms_key str_beq
other_key a b = refl

pub other_key' : (a b : Str) → (rooms_key b == members_key a) ≡ false
unfolding members_key rooms_key str_beq
other_key' a b = refl

module _ (r : Redis) (laws : IsRedis r) where
  -- The sets of the rooms and those of the users tell the same pairs.
  abbrev pub IsMirrored : r.Store → Type 0
  IsMirrored st =
      (room user : Str)
      → Sets.has user (r.smembers (members_key room) st)
        ≡ Sets.has room (r.smembers (rooms_key user) st)

  pub has-add_member :
      (room user room' user' : Str) (st : r.Store)
      → let st' = add_member r true room user st in
        (Sets.has user' (r.smembers (members_key room') st')
          ≡ (room == room' && user == user' || Sets.has user' (r.smembers (members_key room') st)))
        × (Sets.has room' (r.smembers (rooms_key user') st')
            ≡ (user == user' && room == room' || Sets.has room' (r.smembers (rooms_key user') st)))
  unfolding add_member
  has-add_member room user room' user' st =
      let st' = r.sadd (members_key room) user st in
      (
        rw
            (
              laws.smembers-sadd (rooms_key user) (members_key room') room user' st',
              laws.smembers-sadd (members_key room) (members_key room') user user' st,
              other_key' room' user,
              same_members_key room room',
            )
            refl,
        rw
            (
              laws.smembers-sadd (rooms_key user) (rooms_key user') room room' st',
              laws.smembers-sadd (members_key room) (rooms_key user') user room' st,
              other_key room user',
              same_rooms_key user user',
            )
            refl,
      )

  pub has-remove_member :
      (room user room' user' : Str) (st : r.Store)
      → let st' = remove_member r true room user st in
        (Sets.has user' (r.smembers (members_key room') st') ≡ (
          not (room == room' && user == user')
          && Sets.has user' (r.smembers (members_key room') st)))
        × (Sets.has room' (r.smembers (rooms_key user') st') ≡ (
            not (user == user' && room == room')
            && Sets.has room' (r.smembers (rooms_key user') st)))
  unfolding remove_member
  has-remove_member room user room' user' st =
      let st' = r.srem (members_key room) user st in
      (
        rw
            (
              laws.smembers-srem (rooms_key user) (members_key room') room user' st',
              laws.smembers-srem (members_key room) (members_key room') user user' st,
              other_key' room' user,
              same_members_key room room',
            )
            refl,
        rw
            (
              laws.smembers-srem (rooms_key user) (rooms_key user') room room' st',
              laws.smembers-srem (members_key room) (rooms_key user') user room' st,
              other_key room user',
              same_rooms_key user user',
            )
            refl,
      )

  -- The commands for the rooms take the user out of each of them.
  has-srem_each :
      (user : Str) (rooms : List Str) (room' user' : Str) (st : r.Store)
      → let st' = srem_each r user rooms st in
        (Sets.has user' (r.smembers (members_key room') st') ≡ (
          not (Sets.has room' rooms && user == user')
          && Sets.has user' (r.smembers (members_key room') st)))
        × (Sets.has room' (r.smembers (rooms_key user') st')
            ≡ Sets.has room' (r.smembers (rooms_key user') st))
  unfolding srem_each Sets.has
  has-srem_each user [] room' user' st = (refl, refl)
  has-srem_each user (room ∷ rooms) room' user' st =
      let st' = r.srem (members_key room) user st in
      let rest = has-srem_each user rooms room' user' st' in
      (
        rest.0
            ∙ ground (
              arith,
              laws.smembers-srem (members_key room) (members_key room') user user' st,
              same_members_key room room',
            ),
        rest.1
            ∙ ground (
              arith,
              laws.smembers-srem (members_key room) (rooms_key user') user room' st,
              other_key room user',
            ),
      )

  -- Who is in which room after a user has left all; `rooms` are those the set of the user held.
  pub has-leave :
      (user : Str) (rooms : List Str) (room' user' : Str) (st : r.Store)
      → let st' = (leave r user rooms st).0 in
        1 ≤ length rooms
        → (Sets.has user' (r.smembers (members_key room') st') ≡ (
            not (Sets.has room' rooms && user == user')
            && Sets.has user' (r.smembers (members_key room') st)))
          × (Sets.has room' (r.smembers (rooms_key user') st')
              ≡ (not (user == user') && Sets.has room' (r.smembers (rooms_key user') st)))
  unfolding leave
  has-leave user [] room' user' st some_room = absurd (omega arith)
  has-leave user (room ∷ rooms) room' user' st some_room =
      let st' = srem_each r user (room ∷ rooms) st in
      let each = has-srem_each user (room ∷ rooms) room' user' st in
      (
        ground (
          arith,
          laws.smembers-del (rooms_key user) (members_key room') user' st',
          other_key' room' user,
          each.0,
        ),
        ground (
          arith,
          laws.smembers-del (rooms_key user) (rooms_key user') room' st',
          same_rooms_key user user',
          each.1,
        ),
      )
