-- ===== src/Connections.antt =====
-- src/core/ConnectionManager.ts: the open connections by id, and the sockets of each user.
-- A message comes as its payload, `serialize(message)`.
pub mod Invariant
pub mod Add
pub mod Remove
pub mod Send
pub mod Stats
mod Examples
use live_r.Base.{
  ℕ, ◌+◌, Bool, true, false, List, [], ◌∷◌, Option, none, some, leb, ltb, if◌then◌else◌, or_else,
  length,
}
use live_r.Base.Text.{Str}
use live_r.Base.Equality.{str_eq, nat_eq}
use live_r.Base.Dict
use live_r.Base.Dict.{Dict}
use live_r.Base.Sets
use live_r.Types.{Ws, Heap, Effect, send, end, ConnectionStats}

pub record ConnectionManager : Type 0 where
  pub user_connections : Dict Str (List Ws)
  pub connections : Dict Str Ws
  pub max_connections : ℕ

-- new ConnectionManager(maxConnections)
unfoldable pub create : ℕ → ConnectionManager
create max = record { user_connections = []; connections = []; max_connections = max }

unfoldable pub add : Heap → Ws → ConnectionManager → ConnectionManager × Bool
add h ws m =
    if leb m.max_connections (Dict.size m.connections)
    then (m, false)
    else let user_id = (h ws).user_id in
      let user_set = or_else [] (Dict.get user_id m.user_connections) in
      (
        record m {
          connections = Dict.set (h ws).connection_id ws m.connections;
          user_connections = Dict.set user_id (Sets.add ws user_set) m.user_connections;
        },
        true,
      )

-- The set goes back into the map, or its key goes where it is empty.
unfoldable pub store_set : Str → List Ws → Dict Str (List Ws) → Dict Str (List Ws)
store_set user_id [] users = Dict.delete user_id users
store_set user_id (w ∷ ws) users = Dict.set user_id (w ∷ ws) users

unfoldable pub remove : Heap → Ws → ConnectionManager → ConnectionManager
unfolding store_set
remove h ws m =
    let user_id = (h ws).user_id in
    record m {
      connections = Dict.delete (h ws).connection_id m.connections;
      user_connections = elim (Dict.get user_id m.user_connections) [
        | none ↦ m.user_connections
        | some user_set ↦ store_set user_id (Sets.remove ws user_set) m.user_connections
      ];
    }

unfoldable pub get_by_connection_id : Str → ConnectionManager → Option Ws
get_by_connection_id connection_id m = Dict.get connection_id m.connections

unfoldable pub get_by_user_id : Str → ConnectionManager → Option (List Ws)
get_by_user_id user_id m = Dict.get user_id m.user_connections

-- for (const ws of sockets) { ws.send(payload, false); sent++; }
unfoldable pub send_each : Str → List Ws → ℕ → List Effect × ℕ
send_each payload [] sent = ([], sent)
send_each payload (ws ∷ rest) sent =
    let (effects, total) = send_each payload rest (sent + 1) in (send ws payload ∷ effects, total)

unfoldable pub send_to_user : Str → Str → ConnectionManager → List Effect × ℕ
unfolding send_each
send_to_user user_id payload m = elim (Dict.get user_id m.user_connections) [
  | none ↦ ([], 0)
  | some user_set ↦ send_each payload user_set 0
]

unfoldable pub send_to_connection : Str → Str → ConnectionManager → List Effect × Bool
send_to_connection connection_id payload m = elim (Dict.get connection_id m.connections) [
  | none ↦ ([], false)
  | some ws ↦ (send ws payload ∷ [], true)
]

unfoldable pub broadcast_all : Str → ConnectionManager → List Effect × ℕ
unfolding send_each
broadcast_all payload m = send_each payload (Dict.values m.connections) 0

unfoldable pub end_each : ℕ → Str → List Ws → List Effect
end_each code message [] = []
end_each code message (ws ∷ rest) = end ws code message ∷ end_each code message rest

unfoldable pub close_all : ℕ → Str → ConnectionManager → ConnectionManager × List Effect
unfolding end_each
close_all code message m = (
  record m { connections = []; user_connections = [] },
  end_each code message (Dict.values m.connections),
)

unfoldable pub is_user_online : Str → ConnectionManager → Bool
is_user_online user_id m = elim (Dict.get user_id m.user_connections) [
  | none ↦ false
  | some user_set ↦ ltb 0 (length user_set)
]

unfoldable pub get_stats : ConnectionManager → ConnectionStats
get_stats m = record {
  total = Dict.size m.connections;
  unique_users = Dict.size m.user_connections;
}

unfoldable pub get_all_connections : ConnectionManager → List Ws
get_all_connections m = Dict.values m.connections

unfoldable pub size : ConnectionManager → ℕ
size m = Dict.size m.connections
