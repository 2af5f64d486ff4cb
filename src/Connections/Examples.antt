-- ===== src/Connections/Examples.antt =====
-- Tests and instances for src/core/ConnectionManager.ts; the inputs follow
-- tests/unit/ConnectionManager.test.ts: two sockets of one user and one of another.
use live_r.Base.{◌≤◌, ◌≡◌, refl, true, false, not, ◌&&◌, ◌||◌, [], ◌∷◌, arith, All, ltb, to_nat}
use live_r.Base.Text.{Str, codes}
use live_r.Base.Equality.{str_eq, str_beq, nat_eq, ◌==◌}
use live_r.Base.Dict
use live_r.Base.Sets
use live_r.Types.{Ws, Heap, sends_to, ends_of}
use live_r.Connections.{
  ConnectionManager, create, add, remove, send_to_user, send_to_connection, broadcast_all,
  close_all, get_stats, is_user_online, size,
}
use live_r.Connections.Invariant.{IsIndexed, DistinctIds, registered, is_of, create-IsIndexed}
use live_r.Connections.Add.{add-IsIndexed, registered-add}
use live_r.Connections.Remove.{remove-IsIndexed}
use live_r.Connections.Send.{
  IsSend, sends-send_to_user, sends-broadcast_all, sends-send_to_connection, ends-close_all,
}
use live_r.Connections.Stats.{get_stats_bounds}

abbrev ann : Str
ann = codes "ann"

abbrev bob : Str
bob = codes "bob"

-- Socket 2 is bob's, all others are ann's; an id is the identity of the socket.
abbrev sockets : Heap
sockets w = record {
  user_id = elim (w == 2) [ true ↦ bob | false ↦ ann ];
  connection_id = w ∷ [];
  rooms = [];
  permissions = [];
  connected_at = 0;
  last_pong = 0;
}

sockets_distinct : DistinctIds sockets
sockets_distinct v w e = ground arith

abbrev one : ConnectionManager
one = (add sockets 0 (create 3)).0

abbrev two : ConnectionManager
two = (add sockets 1 one).0

abbrev three : ConnectionManager
three = (add sockets 2 two).0

one-IsIndexed : IsIndexed sockets one
unfolding create Dict.get
one-IsIndexed =
    add-IsIndexed sockets 0 (create 3) sockets_distinct (create-IsIndexed sockets 3) refl

two-IsIndexed : IsIndexed sockets two
unfolding create add Dict.get Dict.set Sets.add str_beq
two-IsIndexed = add-IsIndexed sockets 1 one sockets_distinct one-IsIndexed refl

three-IsIndexed : IsIndexed sockets three
unfolding create add Dict.get Dict.set Sets.add str_beq
three-IsIndexed = add-IsIndexed sockets 2 two sockets_distinct two-IsIndexed refl

fourth_refused : (add sockets 3 three).1 ≡ false
unfolding create add Dict.get Dict.set Sets.add str_beq
fourth_refused = refl

stats_of_three : ((get_stats three).total ≡ 3) × ((get_stats three).unique_users ≡ 2)
unfolding create add get_stats Dict.get Dict.set Sets.add str_beq
stats_of_three = (refl, refl)

add-IsIndexed_example : IsIndexed sockets (add sockets 1 (add sockets 0 (create 3)).0).0
unfolding create add Dict.get Dict.set Sets.add str_beq
add-IsIndexed_example = add-IsIndexed sockets 1 one sockets_distinct one-IsIndexed refl

registered-add_instance :
    ((add sockets 3 three).1 ≡ ltb (size three) three.max_connections)
    × (registered sockets 1 (add sockets 3 three).0
        ≡ (registered sockets 1 three || ((add sockets 3 three).1 && nat_eq.same 3 1)))
unfolding create add Dict.get Dict.set Sets.add str_beq
registered-add_instance = registered-add sockets 3 1 three sockets_distinct three-IsIndexed refl

remove-IsIndexed_instance :
    IsIndexed sockets (remove sockets 0 three)
    × ((w : Ws)
        → registered sockets w (remove sockets 0 three)
          ≡ (not (0 == w) && registered sockets w three))
remove-IsIndexed_instance = remove-IsIndexed sockets 0 three sockets_distinct three-IsIndexed

sends-send_to_user_example :
    (sends_to 1 (send_to_user ann (codes "hi") three).0
      ≡ to_nat (registered sockets 1 three && (sockets 1).user_id == ann))
    × All (IsSend (codes "hi")) (send_to_user ann (codes "hi") three).0
    × ((send_to_user ann (codes "hi") three).1 ≡ Dict.total (is_of sockets ann) three.connections)
sends-send_to_user_example = sends-send_to_user sockets ann (codes "hi") 1 three three-IsIndexed

sends-broadcast_all_instance :
    (sends_to 2 (broadcast_all (codes "hi") three).0 ≡ to_nat (registered sockets 2 three))
    × All (IsSend (codes "hi")) (broadcast_all (codes "hi") three).0
    × ((broadcast_all (codes "hi") three).1 ≡ size three)
sends-broadcast_all_instance = sends-broadcast_all sockets (codes "hi") 2 three three-IsIndexed

sends-send_to_connection_instance :
    (sends_to 1 (send_to_connection (sockets 1).connection_id (codes "hi") three).0
      ≡ to_nat (registered sockets 1 three && nat_eq.same 1 1))
    × ((send_to_connection (sockets 1).connection_id (codes "hi") three).1
        ≡ registered sockets 1 three)
sends-send_to_connection_instance =
    sends-send_to_connection sockets (codes "hi") 1 1 three sockets_distinct three-IsIndexed

ends-close_all_instance :
    (ends_of 2 (close_all 1001 (codes "bye") three).1 ≡ to_nat (registered sockets 2 three))
    × ((close_all 1001 (codes "bye") three).0 ≡ create three.max_connections)
    × IsIndexed sockets (close_all 1001 (codes "bye") three).0
ends-close_all_instance = ends-close_all sockets 1001 (codes "bye") 2 three three-IsIndexed

get_stats_bounds_instance :
    ((get_stats three).unique_users ≤ (get_stats three).total)
    × ((get_stats three).total ≤ three.max_connections)
    × (is_user_online bob three ≡ ltb 0 (Dict.total (is_of sockets bob) three.connections))
get_stats_bounds_instance = get_stats_bounds sockets bob three three-IsIndexed
