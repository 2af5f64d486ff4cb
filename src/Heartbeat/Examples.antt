-- ===== src/Heartbeat/Examples.antt =====
-- Instances for src/core/Heartbeat.ts: every 30 s, with a timeout of 10 s; socket 0 answered at 0
-- and socket 1 a moment ago.
use live_r.Base.{
  ◌+◌, ◌≡◌, refl, true, false, ◌&&◌, not, [], ◌∷◌, arith, ltb, leb, to_nat, ◌*◌, ◌≤◌, ◌<◌, ℕ, suc,
}
use live_r.Base.Text.{codes}
use live_r.Base.Equality.{str_eq, str_beq, nat_eq, ◌==◌}
use live_r.Base.Dict
use live_r.Base.Sets
use live_r.Types.{Heap, sends_to, ends_of}
use live_r.Connections.{ConnectionManager, create, add}
use live_r.Connections.Invariant.{IsIndexed, DistinctIds, registered, create-IsIndexed}
use live_r.Connections.Add.{add-IsIndexed}
use live_r.Heartbeat.{tick}
use live_r.Heartbeat.Tick.{tick_outcome}
use live_r.Heartbeat.Silent.{last_run, silent_ended}

abbrev sockets : Heap
sockets w = record {
  user_id = codes "ann";
  connection_id = w ∷ [];
  rooms = [];
  permissions = [];
  connected_at = 0;
  last_pong = elim (w == 0) [ true ↦ 0 | false ↦ 59000 ];
}

sockets_distinct : DistinctIds sockets
sockets_distinct v w e = ground arith

abbrev both : ConnectionManager
both = (add sockets 1 (add sockets 0 (create 3)).0).0

both-IsIndexed : IsIndexed sockets both
unfolding create add Dict.get Dict.set Sets.add str_beq
both-IsIndexed =
    add-IsIndexed sockets 1 (add sockets 0 (create 3)).0 sockets_distinct
      (add-IsIndexed sockets 0 (create 3) sockets_distinct (create-IsIndexed sockets 3) refl) refl

tick_outcome_instance :
    let es = tick sockets 30000 10000 60000 both in
    let stale = ltb ((sockets 0).last_pong + (30000 + 10000)) 60000 in
    (sends_to 0 es ≡ to_nat (registered sockets 0 both && not stale))
    × (ends_of 0 es ≡ to_nat (registered sockets 0 both && stale))
tick_outcome_instance = tick_outcome sockets 30000 10000 60000 0 both both-IsIndexed

-- Each run is one millisecond late, and the second, a minute after the start, ends it.
abbrev runs : ℕ → ℕ
runs k = k * 30001

runs_later : (k : ℕ) → runs k < runs (suc k)
runs_later k = omega arith

runs_soon : (k : ℕ) → runs (suc k) ≤ runs k + (30000 + 1)
runs_soon k = omega arith

silent_ended_example :
    let last = last_run runs 30000 10000 0 in
    (ends_of 0 (tick sockets 30000 10000 (runs 2) both)
      ≡ to_nat (registered sockets 0 both && leb last 2))
    × (runs last ≤ 0 + (30000 + 10000) + (30000 + 1))
silent_ended_example =
    silent_ended runs runs_later 30000 10000 1 0 runs_soon (omega arith) (λ n. sockets) (λ n. both)
      0 2 both-IsIndexed refl
