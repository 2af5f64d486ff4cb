-- ===== src/Client/Emitter/Trace.antt =====
-- client/src/LiveRelayClient.ts: which handlers an emit calls, after any calls of `on`, `off`, `once`
-- and `emit`.
use live_r.Base.{
  Bool, false, not, ◌&&◌, ◌||◌, ◌≡◌, refl, ◌∙◌, ap, ap₂, List, [], ◌∷◌, ◌++◌, map, Option, or_else,
  arith, Option-cases, inl, inr,
}
use live_r.Base.Text.{Str}
use live_r.Base.Equality.{str_eq, nat_eq, ◌==◌, eq_iff}
use live_r.Base.Dict
use live_r.Base.Dict.{Dict}
use live_r.Base.Dict.Laws
use live_r.Base.Sets
use live_r.Protocol.Values.{Json}
use live_r.Client.Emitter.{
  EventHandler, Handlers, Call, no_handlers, enlist, on, once, off, call_each, emit,
}

-- The set under an event.
listed : Str → EventHandler → Dict Str (List EventHandler) → Bool
listed event x sets = Sets.has x (or_else [] (Dict.get event sets))

pub data Use : Type 0 where
  ons offs onces : Str → EventHandler → Use
  emits : Str → Json → Option Json → Use

unfoldable pub use_once : Use → Handlers → Handlers
use_once (ons event x) h = on event x h
use_once (offs event x) h = off event x h
use_once (onces event x) h = once event x h
use_once (emits event data' msg) h = (emit event data' msg h).0

unfoldable pub replay : List Use → Handlers → Handlers
unfolding use_once
replay [] h = h
replay (u ∷ us) h = replay us (use_once u h)

-- Whether `x` is among the regular handlers of `event`, and among those of once: what each call makes
-- of it.
abbrev pub hears : Str → EventHandler → Use → Bool → Bool
hears event x (ons e y) was = e == event && y == x || was
hears event x (offs e y) was = not (e == event && y == x) && was
hears event x (onces e y) was = was
hears event x (emits e data' msg) was = was

abbrev pub awaits : Str → EventHandler → Use → Bool → Bool
awaits event x (ons e y) was = was
awaits event x (offs e y) was = was
awaits event x (onces e y) was = e == event && y == x || was
awaits event x (emits e data' msg) was = not (e == event) && was

abbrev pub after : (Use → Bool → Bool) → List Use → Bool → Bool
after f [] was = was
after f (u ∷ us) was = after f us (f u was)

listed-enlist :
    (event e : Str) (x y : EventHandler) (sets : Dict Str (List EventHandler))
    → listed event x (enlist e y sets) ≡ (e == event && y == x || listed event x sets)
unfolding listed enlist
listed-enlist event e x y sets = ground (
  arith,
  Dict.Laws.get-set e event (Sets.add y (or_else [] (Dict.get e sets))) sets,
  Sets.has-add y x (or_else [] (Dict.get e sets)),
  eq_iff e event,
)

listed-off :
    (event e : Str) (x y : EventHandler) (h : Handlers)
    → listed event x (off e y h).event_handlers
      ≡ (not (e == event && y == x) && listed event x h.event_handlers)
unfolding listed off Sets.has
listed-off event e x y h = elim (Option-cases (Dict.get e h.event_handlers)) [
  | inl none_there ↦ rw (off, none_there) (ground (arith, eq_iff e event, none_there))
  | inr (set, there) ↦
      rw (off, there)
        (ground (
          arith,
          Dict.Laws.get-set e event (Sets.remove y set) h.event_handlers,
          Sets.has-remove y x set,
          eq_iff e event,
          there,
        ))
]

listed-delete :
    (event e : Str) (x : EventHandler) (sets : Dict Str (List EventHandler))
    → listed event x (Dict.delete e sets) ≡ (not (e == event) && listed event x sets)
unfolding listed Sets.has
listed-delete event e x sets = ground (arith, Dict.Laws.get-delete e event sets)

hears-use_once :
    (event : Str) (x : EventHandler) (u : Use) (h : Handlers)
    → listed event x (use_once u h).event_handlers
      ≡ hears event x u (listed event x h.event_handlers)
unfolding use_once on off once emit
hears-use_once event x (ons e y) h = listed-enlist event e x y h.event_handlers
hears-use_once event x (offs e y) h = listed-off event e x y h
hears-use_once event x (onces e y) h = refl
hears-use_once event x (emits e data' msg) h = refl

awaits-use_once :
    (event : Str) (x : EventHandler) (u : Use) (h : Handlers)
    → listed event x (use_once u h).once_handlers
      ≡ awaits event x u (listed event x h.once_handlers)
unfolding use_once on off once emit
awaits-use_once event x (ons e y) h = refl
awaits-use_once event x (offs e y) h = refl
awaits-use_once event x (onces e y) h = listed-enlist event e x y h.once_handlers
awaits-use_once event x (emits e data' msg) h = listed-delete event e x h.once_handlers

has-call_each :
    (x : EventHandler) (data' message : Json) (handlers : List EventHandler)
    → Sets.has x (map (λ (c : Call). c.handler) (call_each data' message handlers))
      ≡ Sets.has x handlers
unfolding call_each Sets.has
has-call_each x data' message [] = refl
has-call_each x data' message (y ∷ ys) = ap (λ b. y == x || b) (has-call_each x data' message ys)

hears-replay :
    (event : Str) (x : EventHandler) (us : List Use) (h : Handlers)
    → listed event x (replay us h).event_handlers
      ≡ after (hears event x) us (listed event x h.event_handlers)
unfolding replay
hears-replay event x [] h = refl
hears-replay event x (u ∷ us) h =
    hears-replay event x us (use_once u h)
    ∙ ap (after (hears event x) us) (hears-use_once event x u h)

awaits-replay :
    (event : Str) (x : EventHandler) (us : List Use) (h : Handlers)
    → listed event x (replay us h).once_handlers
      ≡ after (awaits event x) us (listed event x h.once_handlers)
unfolding replay
awaits-replay event x [] h = refl
awaits-replay event x (u ∷ us) h =
    awaits-replay event x us (use_once u h)
    ∙ ap (after (awaits event x) us) (awaits-use_once event x u h)

map-append :
    (f : Call → EventHandler) (as' bs : List Call) → map f (as' ++ bs) ≡ map f as' ++ map f bs
map-append f [] bs = refl
map-append f (a ∷ as') bs = ap (λ cs. f a ∷ cs) (map-append f as' bs)

-- Whether `emit` calls a handler.
abbrev pub is_called : EventHandler → List Call → Bool
is_called x cs = Sets.has x (map (λ (c : Call). c.handler) cs)

is_called-emit :
    (event : Str) (x : EventHandler) (data' : Json) (msg : Option Json) (h : Handlers)
    → is_called x (emit event data' msg h).1
      ≡ (listed event x h.event_handlers || listed event x h.once_handlers)
unfolding emit listed
is_called-emit event x data' msg h =
    let message = or_else data' msg in
    let regular = or_else [] (Dict.get event h.event_handlers) in
    let single = or_else [] (Dict.get event h.once_handlers) in
    rw map-append (
      Sets.has-append x (map (λ (c : Call). c.handler) (call_each data' message regular))
        (map (λ (c : Call). c.handler) (call_each data' message single))
      ∙ ap₂ (λ a b. a || b) (has-call_each x data' message regular)
          (has-call_each x data' message single))

-- Whatever calls of `on`, `off`, `once` and `emit` a client has had, an emit of an event calls a
-- handler exactly if the last of its `on` and `off` for this event was `on`, or a `once` for this
-- event came after the last emit of it.
pub emit_calls :
    (event : Str) (x : EventHandler) (data' : Json) (msg : Option Json) (us : List Use)
    → is_called x (emit event data' msg (replay us no_handlers)).1
      ≡ (after (hears event x) us false || after (awaits event x) us false)
unfolding listed Sets.has Dict.get
emit_calls event x data' msg us =
    is_called-emit event x data' msg (replay us no_handlers)
    ∙ ap₂ (λ a b. a || b) (hears-replay event x us no_handlers)
        (awaits-replay event x us no_handlers)
