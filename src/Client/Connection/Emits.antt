-- ===== src/Client/Connection/Emits.antt =====
-- client/src/LiveRelayClient.ts: what handling a message changes: the handlers, and nothing else of
-- the client.
use live_r.Base.{
  ℕ, Bool, ◌≡◌, refl, ◌∙◌, ap, List, [], ◌∷◌, ◌++◌, Option, none, some, ◌+◌, arith, map, suc, true,
  false, if◌then◌else◌, or_else,
}
use live_r.Base.Text.{Str, codes}
use live_r.Base.Equality.{str_eq, ◌==◌}
use live_r.Protocol.Values.{property, Json, null, end, stringify}
use live_r.Client.{
  Client, ClientEffect, calls, starts_timer, emits, emit_message, handle_typed,
  handle_server_message, sends, type_of, as_text, typed, transmits, ReadyState, connecting,
  open_state, closing, closed,
}
use live_r.Client.Emitter.{Call, emit}
use live_r.Client.Connection.{Step, ◌then◌}

-- Effects without a timer.
abbrev pub timers_in : List ClientEffect → ℕ
timers_in [] = 0
timers_in (starts_timer id delay ∷ es) = suc (timers_in es)
timers_in (e ∷ es) = timers_in es

pub timers_in-append :
    (es fs : List ClientEffect) → timers_in (es ++ fs) ≡ timers_in es + timers_in fs
timers_in-append [] fs = omega arith
timers_in-append (starts_timer id delay ∷ es) fs = omega (arith, timers_in-append es fs)
timers_in-append (e ∷ es) fs = timers_in-append es fs

-- A step that changes at most the handlers, and starts no timer.
pub record IsQuiet (c : Client) (r : Step) : Type 0 where
  pub unchanged : r.0 ≡ record c { handlers = r.0.handlers }
  pub untimed : timers_in r.1 ≡ 0

calls_untimed : (cs : List Call) → timers_in (map calls cs) ≡ 0
calls_untimed [] = refl
calls_untimed (x ∷ cs) = calls_untimed cs

pub emits-IsQuiet :
    (event : Str) (data' : Json) (msg : Option Json) (c : Client)
    → IsQuiet c (emits event data' msg c)
unfolding emits
emits-IsQuiet event data' msg c = record {
  unchanged = refl;
  untimed = calls_untimed (emit event data' msg c.handlers).1;
}

pub nothing-IsQuiet : (c : Client) → IsQuiet c (c, [])
nothing-IsQuiet c = record { unchanged = refl; untimed = refl }

if-IsQuiet :
    (b : Bool) (c : Client) (x y : Step)
    → IsQuiet c x
    → IsQuiet c y
    → IsQuiet c (if b then x else y)
if-IsQuiet true c x y q p = q
if-IsQuiet false c x y q p = p

pub then-IsQuiet :
    (c : Client) (r : Step) (f : Client → Step)
    → IsQuiet c r
    → IsQuiet r.0 (f r.0)
    → IsQuiet c (r then f)
then-IsQuiet c r f q p = record {
  unchanged =
      p.unchanged ∙ ap (λ (d : Client). record d { handlers = (f r.0).0.handlers }) q.unchanged;
  untimed = omega (arith, timers_in-append r.1 (f r.0).1, q.untimed, p.untimed);
}

sends_untimed : (data' : Json) (c : Client) → timers_in (sends data' c) ≡ 0
unfolding sends
sends_untimed data' c = elim c.ws as (λ (ws : Option ℕ). timers_in (sent_by ws) ≡ 0) [
  | none ↦ refl
  | some k ↦ elim (c.sockets k).ready_state as (λ (r : ReadyState). timers_in (sent_in k r) ≡ 0) [
    | open_state ↦ refl
    | connecting ↦ refl
    | closing ↦ refl
    | closed ↦ refl
  ]
]
  where
    sent_in : ℕ → ReadyState → List ClientEffect
    sent_in k open_state = transmits k (stringify data') ∷ []
    sent_in k _ = []

    sent_by : Option ℕ → List ClientEffect
    sent_by none = []
    sent_by (some k) = sent_in k (c.sockets k).ready_state

sends-IsQuiet : (data' : Json) (c : Client) → IsQuiet c (c, sends data' c)
sends-IsQuiet data' c = record { unchanged = refl; untimed = sends_untimed data' c }

emit_message-IsQuiet : (msg : Json) (c : Client) → IsQuiet c (emit_message msg c)
unfolding emit_message
emit_message-IsQuiet msg c =
    let first = emits-IsQuiet (codes "message") msg none c in
    elim (as_text (property (codes "event") msg))
      as (λ (event : Option Str). IsQuiet c (named event)) [
        | none ↦ first
        | some event ↦
            then-IsQuiet c (emits (codes "message") msg none c)
              (emits event (or_else null (property (codes "data") msg)) (some msg)) first
              (emits-IsQuiet event (or_else null (property (codes "data") msg)) (some msg)
                (emits (codes "message") msg none c).0)
      ]
  where
    named : Option Str → Step
    named none = emits (codes "message") msg none c
    named (some event) =
        emits (codes "message") msg none c
        then emits event (or_else null (property (codes "data") msg)) (some msg)

handle_typed-IsQuiet : (kind : Str) (msg : Json) (c : Client) → IsQuiet c (handle_typed kind msg c)
unfolding handle_typed
handle_typed-IsQuiet kind msg c =
    let ping = typed "ping" end in
    let other = emits kind msg none c in
    let read = if kind == codes "message" then emit_message msg c else other in
    if-IsQuiet (kind == codes "pong") c (c, [])
      (if kind == codes "ping" then (c, sends ping c) else read) (nothing-IsQuiet c)
      (if-IsQuiet (kind == codes "ping") c (c, sends ping c) read (sends-IsQuiet ping c)
        (if-IsQuiet (kind == codes "message") c (emit_message msg c) other
          (emit_message-IsQuiet msg c) (emits-IsQuiet kind msg none c)))

pub handle_server_message-IsQuiet :
    (msg : Json) (c : Client) → IsQuiet c (handle_server_message msg c)
unfolding handle_server_message
handle_server_message-IsQuiet msg c =
    elim (type_of msg) as (λ (kind : Option Str). IsQuiet c (by_type kind)) [
      | none ↦ nothing-IsQuiet c
      | some kind ↦ handle_typed-IsQuiet kind msg c
    ]
  where
    by_type : Option Str → Step
    by_type none = (c, [])
    by_type (some kind) = handle_typed kind msg c
