-- ===== src/Server/Open.antt =====
-- The `open` handler of src/transport/WebSocketServer.ts: what a new socket gets.
use live_r.Base.{◌≡◌, Bool, false, ◌&&◌, ◌||◌, List, [], ◌∷◌, ◌++◌}
use live_r.Base.Text.{Str, codes}
use live_r.Base.Equality.{str_eq, nat_eq, ◌==◌}
use live_r.Base.Sets
use live_r.Protocol
use live_r.Types.{UserData, Ws, Heap, Effect, sends_to, ends_of}
use live_r.Types
use live_r.Connections
use live_r.Rooms
use live_r.Server.{Options, Server, announce, reply}

-- Whether a socket is subscribed to a topic by some of the calls.
abbrev pub joins : Ws → Str → List Effect → Bool
joins w topic [] = false
joins w topic (Types.subscribe v t ∷ es) = (v == w && t == topic) || joins w topic es
joins w topic (e ∷ es) = joins w topic es

-- Calls that neither send to a socket, nor end it, nor subscribe it to a topic.
abbrev IsQuiet : Ws → List Effect → Type 0
IsQuiet w es = (sends_to w es ≡ 0) × (ends_of w es ≡ 0) × ((t : Str) → joins w t es ≡ false)

-- The calls of an accepted socket.
accepted_calls : Options → UserData → Ws → List Effect → List Effect
accepted_calls o data' ws rooms =
    Types.subscribe ws (codes "user:" ++ data'.user_id)
    ∷ (rooms
        ++ (Types.subscribe ws (codes "broadcast")
            ∷ (announce o data'
                ++ reply ws (Protocol.welcome data'.connection_id data'.user_id) ∷ [])))
