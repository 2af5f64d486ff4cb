-- ===== src/Client/Connection/Retries.antt =====
-- client/src/LiveRelayClient.ts: how often a client that cannot connect tries again.
use live_r.Base.{◌+◌, ◌≤◌, ◌≡◌, Bool, true, not, ◌&&◌, List, [], ◌∷◌, arith}
use live_r.Base.Equality.{str_eq, nat_eq}
use live_r.Client.{Client}
use live_r.Client.Connection.Events.{Event, step, run}
use live_r.Client.Connection.Emits.{timers_in, timers_in-append}
use live_r.Client.Connection.Run.{is_open_event, step-Evolves}

-- No event of some is the opening of a socket.
abbrev pub all_down : List Event → Bool
all_down [] = true
all_down (e ∷ es) = not (is_open_event e) && all_down es

-- While no socket opens, a client starts at most as many timers as it has attempts left, whatever
-- else happens, and each counts as an attempt: it gives up.
pub retries_bounded :
    (es : List Event) (c : Client)
    → all_down es ≡ true
    → c.reconnect_attempts ≤ c.config.max_reconnect_attempts
    → let r = run es c in
      (r.0.reconnect_attempts ≡ c.reconnect_attempts + timers_in r.1)
      × (c.reconnect_attempts + timers_in r.1 ≤ c.config.max_reconnect_attempts)
unfolding run
retries_bounded [] c down le = (omega arith, omega (arith, le))
retries_bounded (e ∷ es) c down le =
    let moved = step-Evolves {k = 0} e c (ground (arith, down)) in
    let rest =
      retries_bounded es (step e c).0 (ground (arith, down))
        (omega (arith, moved.capped le, moved.max_same)) in
    let sum = timers_in-append (step e c).1 (run es (step e c).0).1 in
    (
      omega (arith, moved.counted, rest.0, sum),
      omega (arith, moved.counted, moved.max_same, rest.1, sum),
    )
