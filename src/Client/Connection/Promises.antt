-- ===== src/Client/Connection/Promises.antt =====
-- client/src/LiveRelayClient.ts: the promise of `connect()`.
use live_r.Base.{
  ℕ, ◌<◌, ◌≡◌, refl, sym, subst, true, false, List, [], ◌∷◌, some, nat_beq, arith, nat_beq_iff,
}
use live_r.Base.Equality.{str_eq, nat_eq}
use live_r.Client.{Client, Socket, pending, open_state}
use live_r.Client.Connection.{connect, cleanup, opened, fresh_socket, is_connected}
use live_r.Client.Connection.Events.{Event, opens, connects, open_event, step, run}
use live_r.Client.Connection.Evolves.{IsMute, IsSilent}
use live_r.Client.Connection.Run.{run-IsSilent}

pub nat_refl : (n : ℕ) → nat_beq n n ≡ true
nat_refl n = (nat_beq_iff n n).1 refl

-- The socket of a call that has opened while it was the client's.
abbrev pub opened_socket : Socket
opened_socket = record fresh_socket {
  ready_state = open_state;
  on_open = false;
  on_message = false;
  on_error = false;
  on_close = false;
  message_handlers = 1;
  close_handlers = 1;
}

pub record IsOpen (k : ℕ) (c : Client) : Type 0 where
  pub own : c.ws ≡ some k
  pub made : k < c.next_socket
  pub socket : c.sockets k ≡ opened_socket
  pub up : c.connected ≡ true
  pub fresh_count : c.reconnect_attempts ≡ 0

pub open_event-IsOpen :
    (k : ℕ) (c : Client)
    → c.ws ≡ some k
    → k < c.next_socket
    → c.sockets k ≡ fresh_socket
    → IsOpen k (open_event (c.sockets k).ready_state k c)
unfolding open_event opened cleanup
open_event-IsOpen k c own made fresh =
    subst (λ s. IsOpen k (open_event s.ready_state k c)) (sym fresh)
      (record {
        own = rw (fresh, own) refl;
        made = rw (fresh, own) made;
        socket = rw (fresh, own, nat_refl k) refl;
        up = rw (fresh, own) refl;
        fresh_count = rw (fresh, own) refl;
      })

pub IsOpen-is_connected : (k : ℕ) (c : Client) → IsOpen k c → is_connected c ≡ true
unfolding is_connected
IsOpen-is_connected k c i = rw (i.up, i.own, i.socket) refl

fresh-connect : (c : Client) → (connect c).0.sockets c.next_socket ≡ fresh_socket
unfolding connect
fresh-connect c = rw (nat_refl c.next_socket) refl

own-connect : (c : Client) → (connect c).0.ws ≡ some c.next_socket
unfolding connect
own-connect c = refl

-- A socket that has opened has lost the functions of the handshake.
IsOpen-IsSilent : (k : ℕ) (c : Client) → IsOpen k c → IsSilent k c
IsOpen-IsSilent k c i = record {
  made = i.made;
  mute = subst IsMute (sym i.socket) (record {
    no_open = refl;
    no_message = refl;
    no_error = refl;
    no_close = refl;
    waits = refl;
  });
}

pub connected_then_opened :
    (c : Client) → IsOpen c.next_socket (run (connects ∷ opens c.next_socket ∷ []) c).0
unfolding run step connect
connected_then_opened c =
    let k = c.next_socket in
    open_event-IsOpen k (connect c).0 (own-connect c) (omega arith) (fresh-connect c)

-- The client waits for the socket that its last `connect()` made.
pub record IsAwaiting (k : ℕ) (c : Client) : Type 0 where
  pub own : c.ws ≡ some k
  pub made : k < c.next_socket
  pub fresh : c.sockets k ≡ fresh_socket

pub connect-IsAwaiting : (c : Client) → IsAwaiting c.next_socket (connect c).0
unfolding connect
connect-IsAwaiting c = record { own = own-connect c; made = omega arith; fresh = fresh-connect c }

-- The client waits for the socket `k` that its last `connect()` made: it holds that socket and no
-- other, and no event of the socket has come. When that socket opens the client is connected, and the
-- promise of the call is never settled, whatever happens then: the welcome message comes after the
-- opening, and the opening has taken away the function that waits for it.
pub connect_never_settles :
    (k : ℕ) (c : Client) (es : List Event)
    → IsAwaiting k c
    → (is_connected (step (opens k) c).0 ≡ true)
      × (((run (opens k ∷ es) c).0.sockets k).promise ≡ pending)
unfolding run step
connect_never_settles k c es a =
    let d = (step (opens k) c).0 in
    let i = open_event-IsOpen k c a.own a.made a.fresh in
    (IsOpen-is_connected k d i, (run-IsSilent es d (IsOpen-IsSilent k d i)).mute.waits)
