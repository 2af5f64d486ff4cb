-- ===== src/Client/Examples.antt =====
-- Tests and instances for client/src/LiveRelayClient.ts.
use live_r.Base.{◌≤◌, ◌+◌, ◌*◌, ◌≡◌, refl, true, false, List, [], ◌∷◌, none, some, arith, ◌||◌, min}
use live_r.Base.Text.{codes}
use live_r.Base.Equality.{str_eq, str_beq}
use live_r.Protocol.Values.{Json, null, end}
use live_r.Client.{Client, create, typed, pending}
use live_r.Client.Emitter.{no_handlers, emit}
use live_r.Client.Emitter.Trace.{
  Use, ons, offs, onces, emits, is_called, replay, emit_calls, hears, awaits, after,
}
use live_r.Client.Connection.{connect, is_connected, capped_delay}
use live_r.Client.Connection.Events.{
  Event, connects, disconnects, opens, arrives, goes, fires, run, step,
}
use live_r.Client.Connection.Emits.{timers_in}
use live_r.Client.Connection.Promises.{
  IsOpen, connect_never_settles, connected_then_opened, connect-IsAwaiting,
}
use live_r.Client.Connection.Retries.{retries_bounded}
use live_r.Client.Connection.Delays.{delay_bounds}
use live_r.Client.Connection.Waiting.{delays_in}
use live_r.Client.Connection.Recovery.{Failure, outage, doubling, recovers}

-- Three attempts at most, the first after half a second.
abbrev patient : Client
patient = create (codes "ws://host/ws") (codes "t") none (some 3) (some 500)

abbrev welcome : Json
welcome = typed "welcome" end

-- The client is welcomed, leaves, and what it had awaited is as it was.
connect_never_settles_example :
    let es = arrives 0 (some welcome) ∷ disconnects ∷ goes 0 false 1000 (codes "bye") ∷ [] in
    (is_connected (step (opens 0) (connect patient).0).0 ≡ true)
    × (((run (opens 0 ∷ es) (connect patient).0).0.sockets 0).promise ≡ pending)
unfolding create
connect_never_settles_example =
    connect_never_settles 0 (connect patient).0
      (arrives 0 (some welcome) ∷ disconnects ∷ goes 0 false 1000 (codes "bye") ∷ [])
      (connect-IsAwaiting patient)

-- A server that cannot be reached: the timers of three attempts, and no fourth.
abbrev unreachable : List Event
unreachable =
    connects
    ∷ goes 0 true 1006 []
    ∷ fires 0
    ∷ goes 1 true 1006 []
    ∷ fires 1
    ∷ goes 2 true 1006 []
    ∷ fires 2
    ∷ goes 3 true 1006 []
    ∷ fires 3
    ∷ []

retries_bounded_example :
    let r = run unreachable patient in
    (r.0.reconnect_attempts ≡ patient.reconnect_attempts + timers_in r.1)
    × (patient.reconnect_attempts + timers_in r.1 ≤ patient.config.max_reconnect_attempts)
unfolding create
retries_bounded_example = retries_bounded unreachable patient refl (omega arith)

abbrev open_patient : Client
open_patient = (run (connects ∷ opens 0 ∷ []) patient).0

abbrev two_failures : List Failure
two_failures = (1006, []) ∷ (1006, []) ∷ []

recovers_example :
    let r =
      run
        (goes 0 false 1012 []
          ∷ outage two_failures open_patient.next_timer open_patient.next_socket)
        open_patient in
    IsOpen (open_patient.next_socket + 2) r.0
    × (is_connected r.0 ≡ true)
    × (delays_in r.1 ≡ doubling open_patient.config.reconnect_delay 3)
unfolding create run
recovers_example =
    recovers 0 false 1012 [] two_failures open_patient (connected_then_opened patient) refl
      (omega arith)

three_delays : doubling open_patient.config.reconnect_delay 3 ≡ 500 ∷ 1000 ∷ 2000 ∷ []
unfolding create run
three_delays = refl

delay_bounds_example :
    let delay = capped_delay patient.config in
    (delay (6 + 1) ≤ 30000)
    × (min patient.config.reconnect_delay 30000 ≤ delay (6 + 1))
    × (delay (6 + 1) ≤ delay (6 + 2))
    × (delay (6 + 2) ≤ 2 * delay (6 + 1))
delay_bounds_example = delay_bounds patient.config 6

-- 7 is taken off again, 8 and 9 wait for one message, and 9 for another after it.
abbrev uses : List Use
uses =
    ons (codes "message") 7
    ∷ offs (codes "message") 7
    ∷ onces (codes "message") 8
    ∷ onces (codes "message") 9
    ∷ emits (codes "message") null none
    ∷ onces (codes "message") 9
    ∷ []

emit_calls_example : is_called 9 (emit (codes "message") null none (replay uses no_handlers)).1 ≡ (
    after (hears (codes "message") 9) uses false || after (awaits (codes "message") 9) uses false)
emit_calls_example = emit_calls (codes "message") 9 null none uses

nine_alone :
    (after (awaits (codes "message") 9) uses false ≡ true)
    × (after (awaits (codes "message") 8) uses false ≡ false)
    × (after (hears (codes "message") 7) uses false ≡ false)
unfolding str_beq
nine_alone = (refl, refl, refl)
