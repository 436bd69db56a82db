-- ===== src/Networking/HandlerMap/Narrowing.antt =====
-- Why the narrowing that Add of shared/networking/handlermap.go puts before a handler does not
-- panic: dispatch brings an event only to handlers of types that the event has.
use go_solid.Prelude.{Option, none, some, List, [], ◌∷◌, true, lookup, All, ◌≡◌, subst, arith}
use go_solid.Networking.Events.{
  EventType, RType, rtype_comparable, event_type_comparable, Event, plain, implements,
  dynamic_ancestry, ancestry, base_event,
}
use go_solid.Networking.Events.Ancestry.{ancestors}
use go_solid.Networking.HandlerMap.Filing.{IsFiled, chain_at-IsFiled}
use go_solid.Networking.HandlerMap.{
  Outcome, ok, err, panic, Handler, Chain, HandlerMap, narrowable_to, narrowing, after, run,
  chain_at, dispatch_along, dispatch,
}

abbrev pub NoPanic : Outcome → Type 0
NoPanic ok = Unit
NoPanic (err e) = Unit
NoPanic (panic d) = ⊥

-- The event has the type: a handler registered for it may narrow the event.
abbrev pub Has : Event → RType → Type 0
Has event key = narrowable_to event.dynamic key ≡ true

-- An event of a registered type, passed by value, has every type of its ancestry.
ancestors-narrowable :
    (t : EventType) → All (λ u. narrowable_to (plain t) (plain u) ≡ true) (ancestors t)
unfolding ancestry lookup narrowable_to implements
ancestors-narrowable base_event = ground arith
ancestors-narrowable t = ground arith

module _ {S : Type 0} where
  -- The handler does not panic on an event of the type, whatever the state.
  abbrev pub Fits : RType → Option (Handler S) → Type 0
  Fits key none = Unit
  Fits key (some h) = (event : Event) (s : S) → Has event key → NoPanic (h event s).0

  abbrev pub IsWired : HandlerMap S → Type 0
  IsWired = IsFiled Fits

  pub narrowing-Fits :
      (key : RType) (h : Handler S)
      → ((event : Event) (s : S) → Has event key → NoPanic (h event s).0)
      → Fits key (some (narrowing key h))
  unfolding narrowing
  narrowing-Fits key h fits event s has = rw has (fits event s has)

  after-NoPanic :
      (r : Outcome × S) (f : S → Outcome × S)
      → NoPanic r.0
      → ((s : S) → NoPanic (f s).0)
      → NoPanic (after r f).0
  after-NoPanic (ok, s) f first rest = rest s
  after-NoPanic (err e, s) f first rest = tt
  after-NoPanic (panic d, s) f first rest = first

  run-NoPanic :
      (chain : Chain S) (key : RType) (event : Event) (s : S)
      → All (Fits key) chain
      → Has event key
      → NoPanic (run chain event s).0
  unfolding run
  run-NoPanic [] key event s fits has = tt
  run-NoPanic (none ∷ chain) key event s fits has = run-NoPanic chain key event s fits.1 has
  run-NoPanic (some h ∷ chain) key event s fits has =
      after-NoPanic (h event s) (run chain event) (fits.0 event s has)
        (λ s'. run-NoPanic chain key event s' fits.1 has)

  along-NoPanic :
      (m : HandlerMap S) (ts : List EventType) (event : Event) (s : S)
      → IsWired m
      → All (λ t. Has event (plain t)) ts
      → NoPanic (dispatch_along m ts event s).0
  unfolding dispatch_along
  along-NoPanic m [] event s wired has = tt
  along-NoPanic m (t ∷ ts) event s wired has =
      after-NoPanic (run (chain_at m (plain t)) event s) (dispatch_along m ts event)
        (run-NoPanic (chain_at m (plain t)) (plain t) event s
          (chain_at-IsFiled Fits m (plain t) wired) has.0)
        (λ s'. along-NoPanic m ts event s' wired has.1)

  -- A map that Add has filled is dispatched without a panic, for every event of a registered type
  -- that is passed by value.
  pub dispatch-NoPanic :
      (m : HandlerMap S) (event : Event) (s : S)
      → IsWired m
      → event.dynamic.pointers ≡ 0
      → NoPanic (dispatch m event s).0
  unfolding dispatch dynamic_ancestry
  dispatch-NoPanic m event s wired value =
      let t = event.dynamic.base in
      let e : plain t ≡ event.dynamic = ground arith in
      along-NoPanic m (ancestors t) event s wired (
        subst (λ d. All (λ u. narrowable_to d (plain u) ≡ true) (ancestors t)) e
          (ancestors-narrowable t))
