-- ===== src/Client/Emitter.antt =====
-- client/src/LiveRelayClient.ts: `on`, `off`, `once` and `emit`. A handler is named by a number, its
-- identity as a function object; the calls that `emit` makes are returned in their order. What a
-- handler throws is dropped, and what it does to the client is not modelled.
pub mod Trace
use live_r.Base.{ℕ, List, [], ◌∷◌, ◌++◌, Option, none, some, or_else, map}
use live_r.Base.Text.{Str}
use live_r.Base.Equality.{str_eq, nat_eq}
use live_r.Base.Dict
use live_r.Base.Dict.{Dict}
use live_r.Base.Sets
use live_r.Protocol.Values.{Json}

abbrev pub EventHandler : Type 0
EventHandler = ℕ

pub record Handlers : Type 0 where
  pub event_handlers : Dict Str (List EventHandler)
  pub once_handlers : Dict Str (List EventHandler)

-- handler(data, message)
pub record Call : Type 0 where
  pub handler : EventHandler
  pub data' : Json
  pub message : Json

abbrev pub no_handlers : Handlers
no_handlers = record { event_handlers = []; once_handlers = [] }

-- The set is made where there is none, and the handler goes into it.
enlist : Str → EventHandler → Dict Str (List EventHandler) → Dict Str (List EventHandler)
enlist event handler sets =
    Dict.set event (Sets.add handler (or_else [] (Dict.get event sets))) sets

unfoldable pub on : Str → EventHandler → Handlers → Handlers
unfolding enlist
on event handler h = record h { event_handlers = enlist event handler h.event_handlers }

unfoldable pub once : Str → EventHandler → Handlers → Handlers
unfolding enlist
once event handler h = record h { once_handlers = enlist event handler h.once_handlers }

unfoldable pub off : Str → EventHandler → Handlers → Handlers
off event handler h = record h {
  event_handlers = elim (Dict.get event h.event_handlers) [
    | none ↦ h.event_handlers
    | some set ↦ Dict.set event (Sets.remove handler set) h.event_handlers
  ];
}

call_each : Json → Json → List EventHandler → List Call
call_each data' message handlers =
    map (λ handler. record { handler = handler; data' = data'; message = message }) handlers

-- The message is the data where none is given.
unfoldable pub emit : Str → Json → Option Json → Handlers → Handlers × List Call
unfolding call_each
emit event data' msg h =
    let message = or_else data' msg in
    (
      record h { once_handlers = Dict.delete event h.once_handlers },
      call_each data' message (or_else [] (Dict.get event h.event_handlers))
          ++ call_each data' message (or_else [] (Dict.get event h.once_handlers)),
    )
