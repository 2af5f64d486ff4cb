-- ===== src/Server/Invariant.antt =====
-- src/transport/WebSocketServer.ts: the consistency of an instance, and what keeps it.
use live_r.Base.{◌≡◌, ◌≤◌, refl, sym, ap, fun_ext, Option, none, some, arith, to_nat, ◌∙◌}
use live_r.Base.Text.{Str}
use live_r.Base.Equality.{str_eq, nat_eq, ◌==◌, eq_iff}
use live_r.Base.Dict
use live_r.Types.{UserData, Ws, Heap}
use live_r.Connections.{ConnectionManager}
use live_r.Connections.Invariant.{IsIndexed, DistinctIds, HasKey, registered, is_of}
use live_r.Rooms.Invariant.{IsSynced}
use live_r.Server.{Server, assign}

pub record IsServing (s : Server) : Type 0 where
  pub distinct : DistinctIds s.user_data
  pub indexed : IsIndexed s.user_data s.connections
  pub synced : IsSynced s.rooms
  pub some_room : 1 ≤ s.rooms.max_rooms_per_user

-- Two heaps whose sockets have the same users and connection ids.
pub record SameIds (h g : Heap) : Type 0 where
  pub same_user : (w : Ws) → (h w).user_id ≡ (g w).user_id
  pub same_connection : (w : Ws) → (h w).connection_id ≡ (g w).connection_id

HasKey-SameIds : (h g : Heap) (c : Str) (x : Option Ws) → SameIds h g → HasKey h c x → HasKey g c x
HasKey-SameIds h g c none same k = tt
HasKey-SameIds h g c (some w) same k = sym (same.same_connection w) ∙ k

registered-SameIds :
    (h g : Heap) (w : Ws) (m : ConnectionManager)
    → SameIds h g
    → registered g w m ≡ registered h w m
registered-SameIds h g w m same = rw (sym (same.same_connection w)) refl

is_of-SameIds : (h g : Heap) (u : Str) → SameIds h g → is_of h u ≡ is_of g u
is_of-SameIds h g u same =
    fun_ext (λ c. fun_ext (λ w. ap (λ (i : Str). to_nat (i == u)) (same.same_user w)))

-- The maps index the sockets by what the two heaps agree on.
pub IsIndexed-SameIds :
    (h g : Heap) (m : ConnectionManager) → SameIds h g → IsIndexed h m → IsIndexed g m
IsIndexed-SameIds h g m same v = record {
  keyed = λ c. HasKey-SameIds h g c (Dict.get c m.connections) same (v.keyed c);
  sets = λ u w. v.sets u w ∙ ground (arith, registered-SameIds h g w m same, same.same_user w);
  inhabited = v.inhabited;
  set_unique = v.set_unique;
  user_keys = v.user_keys;
  connection_keys = v.connection_keys;
  counted = λ u. v.counted u ∙ ap (λ f. Dict.total f m.connections) (is_of-SameIds h g u same);
  summed = v.summed;
  bounded = v.bounded;
}

pub DistinctIds-SameIds : (h g : Heap) → SameIds h g → DistinctIds h → DistinctIds g
DistinctIds-SameIds h g same d v w e =
    d v w (same.same_connection v ∙ (e ∙ sym (same.same_connection w)))

-- An assignment that keeps the two fields of the socket's object.
pub SameIds-assign :
    (h : Heap) (ws : Ws) (data' : UserData)
    → data'.user_id ≡ (h ws).user_id
    → data'.connection_id ≡ (h ws).connection_id
    → SameIds h (assign ws data' h)
SameIds-assign h ws data' user connection = record {
  same_user = λ w. ground (arith, eq_iff ws w, ap (λ (v : Ws). (h v).user_id) {x = ws} {y = w});
  same_connection =
      λ w. ground (arith, eq_iff ws w, ap (λ (v : Ws). (h v).connection_id) {x = ws} {y = w});
}
