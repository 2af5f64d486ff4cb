-- ===== src/Client/Connection/Evolves.antt =====
-- client/src/LiveRelayClient.ts: what every step of a client keeps: a socket that has lost its
-- handshake never settles its promise, and the attempts at reconnecting are counted and capped.
use live_r.Base.{
  ℕ, ◌+◌, ◌≤◌, ◌<◌, ◌≡◌, refl, sym, subst, ◌∙◌, ap, Bool, true, false, [], Option, none, some,
  nat_beq, arith, Bool-cases, inl, inr, ◌⊎◌, if◌then◌else◌,
}
use live_r.Base.Equality.{str_eq, nat_eq}
use live_r.Client.{Client, Socket, Promise, pending, rejected, ReadyState, with_socket}
use live_r.Client.Connection.{
  Step, ◌then◌, connect, cleanup, settle, set_ready, refused, with_handlers, without_handshake,
  settled,
}
use live_r.Client.Connection.Emits.{timers_in, timers_in-append, IsQuiet}

pub record IsMute (s : Socket) : Type 0 where
  pub no_open : s.on_open ≡ false
  pub no_message : s.on_message ≡ false
  pub no_error : s.on_error ≡ false
  pub no_close : s.on_close ≡ false
  pub waits : s.promise ≡ pending

-- The socket has been made, has lost its handshake, and its promise is not settled.
pub record IsSilent (k : ℕ) (c : Client) : Type 0 where
  pub made : k < c.next_socket
  pub mute : IsMute (c.sockets k)

pub record Evolves (k : ℕ) (c : Client) (r : Step) : Type 0 where
  pub silent : IsSilent k c → IsSilent k r.0
  pub max_same : r.0.config.max_reconnect_attempts ≡ c.config.max_reconnect_attempts
  pub capped :
      c.reconnect_attempts ≤ c.config.max_reconnect_attempts
      → r.0.reconnect_attempts ≤ c.config.max_reconnect_attempts
  pub counted : r.0.reconnect_attempts ≡ c.reconnect_attempts + timers_in r.1

module _ {k : ℕ} where
  pub then-Evolves :
      (c : Client) (r : Step) (f : Client → Step)
      → Evolves k c r
      → Evolves k r.0 (f r.0)
      → Evolves k c (r then f)
  then-Evolves c r f e d = record {
    silent = λ s. d.silent (e.silent s);
    max_same = d.max_same ∙ e.max_same;
    capped = λ le. omega (arith, e.max_same, d.capped (omega (arith, e.capped le, e.max_same)));
    counted = omega (arith, e.counted, d.counted, timers_in-append r.1 (f r.0).1);
  }

  pub if-Evolves :
      (b : Bool) (c : Client) (x y : Step)
      → (b ≡ true → Evolves k c x)
      → (b ≡ false → Evolves k c y)
      → Evolves k c (if b then x else y)
  if-Evolves true c x y e d = e refl
  if-Evolves false c x y e d = d refl

  pub nothing-Evolves : (c : Client) → Evolves k c (c, [])
  nothing-Evolves c = record {
    silent = λ s. s;
    max_same = refl;
    capped = λ le. le;
    counted = omega arith;
  }

  pub quiet-Evolves : (c : Client) (r : Step) → IsQuiet c r → Evolves k c r
  quiet-Evolves c r q = record {
    silent = λ s. subst (IsSilent k) (sym q.unchanged) (record { made = s.made; mute = s.mute });
    max_same = ap (λ (d : Client). d.config.max_reconnect_attempts) q.unchanged;
    capped = λ le. omega (arith, le, ap (λ (d : Client). d.reconnect_attempts) q.unchanged);
    counted = omega (arith, q.untimed, ap (λ (d : Client). d.reconnect_attempts) q.unchanged);
  }

  -- Another socket may change as it likes, this one if it stays mute.
  pub with_socket-Evolves :
      (j : ℕ) (s : Socket) (c : Client)
      → (j ≡ k → IsMute (c.sockets k) → IsMute s)
      → Evolves k c (with_socket j s c, [])
  with_socket-Evolves j s c keeps = record {
    silent = λ i. record { made = i.made; mute = at (Bool-cases (nat_beq j k)) i.mute };
    max_same = refl;
    capped = λ le. le;
    counted = omega arith;
  }
    where
      at :
          ((nat_beq j k ≡ true) ⊎ (nat_beq j k ≡ false))
          → IsMute (c.sockets k)
          → IsMute ((with_socket j s c).sockets k)
      at (inl e) m = rw e (keeps (ground (arith, e)) m)
      at (inr e) m = rw e m

  pub connect-Evolves : (c : Client) → Evolves k c (connect c)
  unfolding connect
  connect-Evolves c = record {
    silent = λ i. record { made = omega (arith, i.made); mute = kept i };
    max_same = refl;
    capped = λ le. le;
    counted = omega arith;
  }
    where
      kept : IsSilent k c → IsMute ((connect c).0.sockets k)
      kept i = ground (
        arith, i.made, i.mute.no_open, i.mute.no_message, i.mute.no_error, i.mute.no_close,
        i.mute.waits,
      )

  pub cleanup-Evolves : (j : ℕ) (c : Client) → Evolves k c (cleanup j c, [])
  unfolding cleanup
  cleanup-Evolves j c = elim c.ws as (λ (ws : Option ℕ). Evolves k c (cleaned ws, [])) [
    | none ↦ nothing-Evolves c
    | some i ↦
        with_socket-Evolves i (cleaned_socket i) c
          (λ e m. muted i (subst (λ n. IsMute (c.sockets n)) (sym e) m))
  ]
    where
      cleaned_socket : ℕ → Socket
      cleaned_socket i =
          with_handlers (if nat_beq i j then without_handshake (c.sockets i) else c.sockets i)

      cleaned : Option ℕ → Client
      cleaned none = c
      cleaned (some i) = with_socket i (cleaned_socket i) c

      muted : (i : ℕ) → IsMute (c.sockets i) → IsMute (cleaned_socket i)
      muted i m = ground (arith, m.no_open, m.no_message, m.no_error, m.no_close, m.waits)

  pub settle-Evolves :
      (j : ℕ) (p : Promise) (c : Client) → (j ≡ k → ⊥) → Evolves k c (settle j p c, [])
  unfolding settle
  settle-Evolves j p c other =
      with_socket-Evolves j (record (c.sockets j) { promise = settled (c.sockets j).promise p }) c
        (λ e. absurd (other e))

  -- Only a call whose functions the socket still has settles its promise.
  pub then_settle-Evolves :
      (j : ℕ) (p : Promise) (c : Client) (r : Step)
      → (j ≡ k → IsSilent k c → ⊥)
      → Evolves k c r
      → Evolves k c (r then λ c'. (settle j p c', []))
  unfolding settle
  then_settle-Evolves j p c r has e = record {
    silent = λ i. (settle-Evolves j p r.0 (λ same. has same i)).silent (e.silent i);
    max_same = e.max_same;
    capped = e.capped;
    counted = omega (arith, e.counted, timers_in-append r.1 []);
  }

  pub refused-Evolves :
      (j : ℕ) (c : Client) → (j ≡ k → IsSilent k c → ⊥) → Evolves k c (refused j c, [])
  unfolding refused
  refused-Evolves j c has =
      then_settle-Evolves j rejected c (cleanup j c, []) has (cleanup-Evolves j c)

  pub set_ready-Evolves :
      (j : ℕ) (state : ReadyState) (c : Client) → Evolves k c (set_ready j state c, [])
  set_ready-Evolves j state c =
      with_socket-Evolves j (record (c.sockets j) { ready_state = state }) c
        (λ e m. same j (subst (λ n. IsMute (c.sockets n)) (sym e) m))
    where
      same : (i : ℕ) → IsMute (c.sockets i) → IsMute (record (c.sockets i) { ready_state = state })
      same i m = record {
        no_open = m.no_open;
        no_message = m.no_message;
        no_error = m.no_error;
        no_close = m.no_close;
        waits = m.waits;
      }

  -- The rest of the client has no part in it.
  pub from-Evolves :
      (c d : Client) {r : Step}
      → d.sockets ≡ c.sockets
      → d.next_socket ≡ c.next_socket
      → d.reconnect_attempts ≡ c.reconnect_attempts
      → d.config.max_reconnect_attempts ≡ c.config.max_reconnect_attempts
      → Evolves k d r
      → Evolves k c r
  from-Evolves c d sockets next attempts max e = record {
    silent = λ i. e.silent (record {
      made = omega (arith, next, i.made);
      mute = subst (λ f. IsMute (f k)) (sym sockets) i.mute;
    });
    max_same = e.max_same ∙ max;
    capped = λ le. omega (arith, max, e.capped (omega (arith, le, attempts, max)));
    counted = omega (arith, e.counted, attempts);
  }
