-- ===== src/Server/Upgrade.antt =====
-- The `upgrade` handler of src/transport/WebSocketServer.ts: whether a request gets a socket.
use live_r.Base.{
  ℕ, ◌≡◌, Bool, true, false, [], ◌∷◌, Option, none, some, leb, ltb, if◌then◌else◌, arith,
}
use live_r.Base.Text.{Str, codes}
use live_r.Types.{UserData}
use live_r.Auth.{AuthResult}
use live_r.Connections
use live_r.Server.{Server}

-- What the upgrade answers: a status with its text, or the data of the new socket.
pub data Upgrade : Type 0 where
  refused : Str → Str → Upgrade
  upgraded : UserData → Upgrade
  -- The request is gone, and nothing is written.
  dropped : Upgrade

-- `if (!aborted) { … }`
abbrev unless_aborted : Bool → Upgrade → Upgrade
unless_aborted aborted u = if aborted then dropped else u

unfoldable pub user_data_of : ℕ → Str → AuthResult → UserData
user_data_of now connection_id auth = record {
  user_id = auth.user_id;
  connection_id = connection_id;
  rooms = auth.rooms;
  permissions = auth.permissions;
  connected_at = now;
  last_pong = now;
}

admit : ℕ → ℕ → Str → Bool → Option AuthResult → Server → Upgrade
unfolding user_data_of
admit max_connections now connection_id aborted none s =
    unless_aborted aborted (refused (codes "401 Unauthorized") (codes "Invalid token"))
admit max_connections now connection_id aborted (some auth) s =
    if leb max_connections (Connections.size s.connections)
    then unless_aborted aborted
        (refused (codes "503 Service Unavailable") (codes "Connection limit reached"))
    else unless_aborted aborted (upgraded (user_data_of now connection_id auth))

-- `token` is what the query holds, `jwt` the verifier, `connection_id` the new id.
unfoldable pub upgrade :
    ℕ → (Str → Option AuthResult) → ℕ → Str → Bool → Option Str → Server → Upgrade
unfolding admit
upgrade max_connections jwt now connection_id aborted none s =
    unless_aborted aborted (refused (codes "401 Unauthorized") (codes "Missing token"))
upgrade max_connections jwt now connection_id aborted (some []) s =
    unless_aborted aborted (refused (codes "401 Unauthorized") (codes "Missing token"))
upgrade max_connections jwt now connection_id aborted (some (c ∷ token)) s =
    admit max_connections now connection_id aborted (jwt (c ∷ token)) s

-- The data of the socket that a request with a token gets, if it gets one.
abbrev pub admitted : Upgrade → Option UserData
admitted (refused status reason) = none
admitted (upgraded data') = some data'
admitted dropped = none

-- What the verifier makes of the token of the query; a missing or empty one is not shown to it.
abbrev pub accepted : (Str → Option AuthResult) → Option Str → Option AuthResult
accepted jwt none = none
accepted jwt (some []) = none
accepted jwt (some (c ∷ token)) = jwt (c ∷ token)

abbrev pub is_dropped : Upgrade → Bool
is_dropped dropped = true
is_dropped u = false

-- The socket of an accepted token.
abbrev pub seat : ℕ → ℕ → Str → Server → Option AuthResult → Option UserData
seat max now connection_id s none = none
seat max now connection_id s (some auth) =
    if ltb (Connections.size s.connections) max
    then some record {
      user_id = auth.user_id;
      connection_id = connection_id;
      rooms = auth.rooms;
      permissions = auth.permissions;
      connected_at = now;
      last_pong = now;
    }
    else none

-- The data is that which `seat` writes out.
admit_admits :
    (max now : ℕ) (connection_id : Str) (aborted : Bool) (auth : Option AuthResult) (s : Server)
    → let r = admit max now connection_id aborted auth s in
      (admitted r ≡ (if aborted then none else seat max now connection_id s auth))
      × (is_dropped r ≡ aborted)
unfolding admit user_data_of
admit_admits max now connection_id aborted none s = (ground arith, ground arith)
admit_admits max now connection_id aborted (some auth) s = (ground arith, ground arith)

-- Whose socket a request gets: nobody's without a token or with one that is not accepted, none
-- where the limit of connections is reached or the request is gone; else it carries the user, rooms
-- and permissions of the token, the new id, and the present time as that of its connection and of
-- its last answer. A request is left without answer exactly if it is
-- gone.
pub upgrade_admits :
    (max now : ℕ) (jwt : Str → Option AuthResult) (connection_id : Str) (aborted : Bool)
    (token : Option Str) (s : Server)
    → let r = upgrade max jwt now connection_id aborted token s in
      (admitted r ≡ (if aborted then none else seat max now connection_id s (accepted jwt token)))
      × (is_dropped r ≡ aborted)
unfolding upgrade
upgrade_admits max now jwt connection_id aborted none s = (ground arith, ground arith)
upgrade_admits max now jwt connection_id aborted (some []) s = (ground arith, ground arith)
upgrade_admits max now jwt connection_id aborted (some (c ∷ token)) s =
    admit_admits max now connection_id aborted (jwt (c ∷ token)) s
