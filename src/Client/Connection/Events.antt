-- ===== src/Client/Connection/Events.antt =====
-- client/src/LiveRelayClient.ts: what happens to a client, as steps. A timer and a socket of the
-- platform give an event when they fire, open, have a message or go.
use live_r.Base.{ℕ, Bool, List, [], ◌∷◌, Option, if◌then◌else◌}
use live_r.Base.Text.{Str}
use live_r.Base.Equality.{str_eq, nat_eq}
use live_r.Base.Sets
use live_r.Protocol.Values.{Json}
use live_r.Client.{Client, ReadyState, connecting, open_state, closed}
use live_r.Client.Connection.{
  Step, ◌then◌, connect, opened, set_ready, handshake_message, lasting_messages, dispatch_error,
  dispatch_close, disconnect,
}

-- What happens to a client: a call of its user, or an event of a socket or of a timer.
pub data Event : Type 0 where
  connects disconnects : Event
  opens : ℕ → Event
  arrives : ℕ → Option Json → Event
  -- A socket goes, after an error or not, with a code and a reason.
  goes : ℕ → Bool → ℕ → Str → Event
  fires : ℕ → Event

unfoldable pub open_event : ReadyState → ℕ → Client → Client
unfolding opened
open_event connecting k c =
    let ready = set_ready k open_state c in if (c.sockets k).on_open then opened k ready else ready
open_event _ k c = c

unfoldable pub message_event : ReadyState → ℕ → Option Json → Client → Step
unfolding handshake_message lasting_messages
message_event open_state k data' c =
    let n = (c.sockets k).message_handlers in
    let first = if (c.sockets k).on_message then handshake_message k data' c else (c, []) in
    first then lasting_messages n data'
message_event _ k data' c = (c, [])

-- A socket that never opened fails.
unfoldable pub close_event : ReadyState → ℕ → Bool → ℕ → Str → Client → Step
unfolding dispatch_error dispatch_close
close_event closed k failed code reason c = (c, [])
close_event connecting k failed code reason c =
    dispatch_close k code reason (dispatch_error k (set_ready k closed c))
close_event _ k failed code reason c =
    let gone = set_ready k closed c in
    dispatch_close k code reason (if failed then dispatch_error k gone else gone)

-- Events that cannot come change nothing: of a socket that was never made or in another state, and
-- of a timer that does not run.
unfoldable pub step : Event → Client → Step
unfolding connect disconnect open_event message_event close_event
step connects c = connect c
step disconnects c = disconnect c
step (opens k) c = (open_event (c.sockets k).ready_state k c, [])
step (arrives k data') c = message_event (c.sockets k).ready_state k data' c
step (goes k failed code reason) c = close_event (c.sockets k).ready_state k failed code reason c
step (fires id) c =
    let fired = connect (record c { timers = Sets.remove id c.timers }) in
    if Sets.has id c.timers then fired else (c, [])

unfoldable pub run : List Event → Client → Step
unfolding step
run [] c = (c, [])
run (e ∷ es) c = step e c then run es
