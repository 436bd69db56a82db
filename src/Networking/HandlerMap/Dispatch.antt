-- ===== src/Networking/HandlerMap/Dispatch.antt =====
-- Chain.Run and Dispatch of shared/networking/handlermap.go: order, what they keep, and why the
-- narrowing of a handler does not fail.
use go_solid.Prelude.{none, some, List, [], ◌∷◌, ◌++◌, ◌≡◌, ◌≢◌, refl, sym, ◌∙◌}
use go_solid.Networking.Events.{EventType, rtype_comparable, Event, plain, dynamic_ancestry}
use go_solid.Networking.HandlerMap.{
  Outcome, ok, err, panic, Handler, Chain, HandlerMap, after, run, chain_at, dispatch_along,
  dispatch,
}

-- The course of handlers for an event, one after the other: each that returns nil hands its state on, and
-- the first that returns an error, or panics, is the last that is called.
pub data Course {S : Type 0} (event : Event) : List (Handler S) → S → Outcome × S → Type 0 where
  all_ran : (s : S) → Course event [] s (ok, s)
  goes_on :
      (h : Handler S) (hs : List (Handler S)) (s next : S) (out : Outcome × S)
      → h event s ≡ (ok, next)
      → Course event hs next out
      → Course event (h ∷ hs) s out
  stops :
      (h : Handler S) (hs : List (Handler S)) (s : S) (out : Outcome × S)
      → h event s ≡ out
      → out.0 ≢ ok
      → Course event (h ∷ hs) s out

module _ {S : Type 0} where
  after_assoc :
      (r : Outcome × S) (f g : S → Outcome × S) → after (after r f) g ≡ after r (λ s. after (f s) g)
  after_assoc (ok, s) f g = refl
  after_assoc (err e, s) f g = refl
  after_assoc (panic d, s) f g = refl

  after-eq :
      (r : Outcome × S) (f g : S → Outcome × S) → ((s : S) → f s ≡ g s) → after r f ≡ after r g
  after-eq (ok, s) f g h = h s
  after-eq (err e, s) f g h = refl
  after-eq (panic d, s) f g h = refl

  pub run-append :
      (c d : Chain S) (event : Event) (s : S)
      → run (c ++ d) event s ≡ after (run c event s) (run d event)
  unfolding run
  run-append [] d event s = refl
  run-append (none ∷ c) d event s = run-append c d event s
  run-append (some h ∷ c) d event s =
      after-eq (h event s) _ _ (run-append c d event)
      ∙ sym (after_assoc (h event s) (run c event) (run d event))

  -- All handlers for an event, in the order of its ancestry.
  abbrev pub chains : HandlerMap S → List EventType → Chain S
  chains m [] = []
  chains m (t ∷ ts) = chain_at m (plain t) ++ chains m ts

  along-chains :
      (m : HandlerMap S) (ts : List EventType) (event : Event) (s : S)
      → dispatch_along m ts event s ≡ run (chains m ts) event s
  unfolding dispatch_along run
  along-chains m [] event s = refl
  along-chains m (t ∷ ts) event s =
      after-eq (run (chain_at m (plain t)) event s) _ _ (along-chains m ts event)
      ∙ sym (run-append (chain_at m (plain t)) (chains m ts) event s)

  -- Dispatch is a run of the chains of the event's ancestry, as one.
  pub dispatch-chains :
      (m : HandlerMap S) (event : Event) (s : S)
      → dispatch m event s ≡ run (chains m (dynamic_ancestry event)) event s
  unfolding dispatch
  dispatch-chains m event s = along-chains m (dynamic_ancestry event) event s

  -- The handlers of a chain that are not nil
  abbrev pub present : Chain S → List (Handler S)
  present [] = []
  present (none ∷ chain) = present chain
  present (some h ∷ chain) = h ∷ present chain
