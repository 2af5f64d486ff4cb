-- ===== src/Connections/Send.antt =====
-- `sendToUser`, `sendToConnection`, `broadcastAll` and `closeAll` of src/core/ConnectionManager.ts:
-- whom they reach.
use live_r.Base.{
  ℕ, ◌+◌, ◌≡◌, refl, false, ◌&&◌, List, [], ◌∷◌, length, arith, to_nat, inl, inr, ap, Option-cases,
  All, ◌∙◌,
}
use live_r.Base.Text.{Str}
use live_r.Base.Equality.{str_eq, nat_eq, ◌==◌, eq_iff}
use live_r.Base.Dict
use live_r.Base.Dict.Laws
use live_r.Base.Dict.Totals
use live_r.Base.Sets
use live_r.Types.{Ws, Heap, Effect, send, sends_to, ends_of}
use live_r.Connections.{
  ConnectionManager, send_each, end_each, send_to_user, send_to_connection, broadcast_all,
  close_all, size, create,
}
use live_r.Connections.Invariant.{
  IsIndexed, DistinctIds, HasKey, sockets_of, registered, holds, is_of, owner, create-IsIndexed,
}

-- How often a socket stands in a list.
abbrev pub times : Ws → List Ws → ℕ
times w [] = 0
times w (v ∷ vs) = to_nat (v == w) + times w vs

times_absent : (w : Ws) (vs : List Ws) → Sets.has w vs ≡ false → times w vs ≡ 0
unfolding Sets.has
times_absent w [] e = refl
times_absent w (v ∷ vs) e = ground (arith, times_absent w vs)

times-has : (w : Ws) (vs : List Ws) → Sets.IsUnique vs → times w vs ≡ to_nat (Sets.has w vs)
unfolding Sets.has
times-has w [] u = refl
times-has w (v ∷ vs) u = ground (arith, times-has w vs u.1, times_absent v vs u.0, eq_iff v w)

-- Only sends of this payload.
abbrev pub IsSend : Str → Effect → Type 0
IsSend payload (send w p) = p ≡ payload
IsSend payload _ = ⊥

module _ (payload : Str) where
  count-send_each : (vs : List Ws) (n : ℕ) → (send_each payload vs n).1 ≡ n + length vs
  unfolding send_each
  count-send_each [] n = omega arith
  count-send_each (v ∷ vs) n = omega (arith, count-send_each vs (n + 1))

  sends-send_each :
      (w : Ws) (vs : List Ws) (n : ℕ) → sends_to w (send_each payload vs n).0 ≡ times w vs
  unfolding send_each
  sends-send_each w [] n = refl
  sends-send_each w (v ∷ vs) n = ap (λ (k : ℕ). to_nat (v == w) + k) (sends-send_each w vs (n + 1))

  only-send_each : (vs : List Ws) (n : ℕ) → All (IsSend payload) (send_each payload vs n).0
  unfolding send_each
  only-send_each [] n = tt
  only-send_each (v ∷ vs) n = (refl, only-send_each vs (n + 1))

ends-end_each :
    (code : ℕ) (message : Str) (w : Ws) (vs : List Ws)
    → ends_of w (end_each code message vs) ≡ times w vs
unfolding end_each
ends-end_each code message w [] = refl
ends-end_each code message w (v ∷ vs) =
    ap (λ (k : ℕ). to_nat (v == w) + k) (ends-end_each code message w vs)

times-values :
    (w : Ws) (m : Dict.Dict Str Ws)
    → times w (Dict.values m) ≡ Dict.total (λ c v. to_nat (v == w)) m
unfolding Dict.values Dict.total
times-values w [] = refl
times-values w ((c, v) ∷ m) = ap (λ (k : ℕ). to_nat (v == w) + k) (times-values w m)

-- Under keys that are the connection ids, a socket stands once or not at all.
pub times-connections :
    (h : Heap) (w : Ws) (m : Dict.Dict Str Ws)
    → Dict.Laws.IsUnique m
    → ((c : Str) → HasKey h c (Dict.get c m))
    → times w (Dict.values m) ≡ to_nat (holds w (Dict.get (h w).connection_id m))
unfolding Dict.values Dict.get
times-connections h w [] u keyed = refl
times-connections h w ((c, v) ∷ m) u keyed =
    ground (arith, eq_iff v w, eq_iff c (h w).connection_id, head, times-connections h w m u.1 tail)
  where
    head : (h v).connection_id ≡ c
    head = ground (arith, keyed c, eq_iff c c)

    tail : (j : Str) → HasKey h j (Dict.get j m)
    tail j = ground (arith, keyed j, eq_iff c j, u.0)

send_to_user-send_each :
    (u payload : Str) (m : ConnectionManager)
    → send_to_user u payload m ≡ send_each payload (sockets_of u m) 0
unfolding send_to_user send_each
send_to_user-send_each u payload m = ground arith

-- From consistent maps, `sendToUser` sends the payload once to each registered socket of the user
-- and to no other socket, makes no other call, and answers how many connections the user has.
pub sends-send_to_user :
    (h : Heap) (u payload : Str) (w : Ws) (m : ConnectionManager)
    → IsIndexed h m
    → (sends_to w (send_to_user u payload m).0 ≡ to_nat (registered h w m && (h w).user_id == u))
      × All (IsSend payload) (send_to_user u payload m).0
      × ((send_to_user u payload m).1 ≡ Dict.total (is_of h u) m.connections)
sends-send_to_user h u payload w m v = rw send_to_user-send_each (
  sends-send_each payload w (sockets_of u m) 0
      ∙ times-has w (sockets_of u m) (v.set_unique u)
      ∙ ap to_nat (v.sets u w),
  only-send_each payload (sockets_of u m) 0,
  omega (arith, count-send_each payload (sockets_of u m) 0, v.counted u),
)

-- From consistent maps, `broadcastAll` sends the payload once to each registered socket and to no
-- other, makes no other call, and answers the number of connections.
pub sends-broadcast_all :
    (h : Heap) (payload : Str) (w : Ws) (m : ConnectionManager)
    → IsIndexed h m
    → (sends_to w (broadcast_all payload m).0 ≡ to_nat (registered h w m))
      × All (IsSend payload) (broadcast_all payload m).0
      × ((broadcast_all payload m).1 ≡ size m)
unfolding broadcast_all size
sends-broadcast_all h payload w m v = (
  sends-send_each payload w (Dict.values m.connections) 0
      ∙ times-connections h w m.connections v.connection_keys v.keyed,
  only-send_each payload (Dict.values m.connections) 0,
  omega (
    arith,
    count-send_each payload (Dict.values m.connections) 0,
    Dict.Totals.length-values m.connections,
  ),
)

-- `sendToConnection` sends the payload to the socket under that id, if there is one, and answers
-- whether there is.
pub sends-send_to_connection :
    (h : Heap) (payload : Str) (v w : Ws) (m : ConnectionManager)
    → DistinctIds h
    → IsIndexed h m
    → (sends_to w (send_to_connection (h v).connection_id payload m).0
        ≡ to_nat (registered h v m && v == w))
      × ((send_to_connection (h v).connection_id payload m).1 ≡ registered h v m)
unfolding send_to_connection
sends-send_to_connection h payload v w m d i =
    elim (Option-cases (Dict.get (h v).connection_id m.connections)) [
      | inl e ↦ ground arith
      | inr (x, e) ↦ ground (arith, owner h v x m d i e, eq_iff x v, eq_iff v v, eq_iff v w)
    ]

-- From consistent maps, `closeAll` ends each registered socket once and no other, and leaves no
-- connection and no user, in maps that are consistent again.
pub ends-close_all :
    (h : Heap) (code : ℕ) (message : Str) (w : Ws) (m : ConnectionManager)
    → IsIndexed h m
    → (ends_of w (close_all code message m).1 ≡ to_nat (registered h w m))
      × ((close_all code message m).0 ≡ create m.max_connections)
      × IsIndexed h (close_all code message m).0
unfolding close_all create
ends-close_all h code message w m v = (
  ends-end_each code message w (Dict.values m.connections)
      ∙ times-connections h w m.connections v.connection_keys v.keyed,
  refl,
  create-IsIndexed h m.max_connections,
)
