-- ===== src/Networking/HandlerMap/Filing.antt =====
-- A property of every handler that a map of shared/networking/handlermap.go holds, by the type it is
-- filed under, and that AddType keeps it.
use go_solid.Prelude.{
  Option, none, some, List, [], ◌∷◌, ◌++◌, lookup, insert, lookup-insert, All, ◌≡◌, subst, arith,
  inl, inr, Option-cases, Bool-cases,
}
use go_solid.Networking.Events.{
  EventType, RType, rtype_eq, rtype_comparable, rtype_eq_iff, event_type_comparable, Event, plain,
  dynamic_ancestry,
}
use go_solid.Networking.HandlerMap.{
  Outcome, ok, err, panic, Handler, Chain, HandlerMap, HandlerMode, replace, prefix, postfix,
  invalid, unknown, done, narrowable_to, narrowing, after, run, chain_at, put_handler,
  dispatch_along, dispatch,
}

module _ {S : Type 0} (Q : RType → Option (Handler S) → Type 0) where
  abbrev pub IsFiled : HandlerMap S → Type 0
  IsFiled m = (key : RType) (chain : Chain S) → lookup key m ≡ some chain → All (Q key) chain

  All-append : (key : RType) (c d : Chain S) → All (Q key) c → All (Q key) d → All (Q key) (c ++ d)
  All-append key [] d hc hd = hd
  All-append key (h ∷ c) d hc hd = (hc.0, All-append key c d hc.1 hd)

  pub chain_at-IsFiled : (m : HandlerMap S) (key : RType) → IsFiled m → All (Q key) (chain_at m key)
  unfolding chain_at
  chain_at-IsFiled m key wired = elim (Option-cases (lookup key m)) [
    | inl e ↦ rw (e, chain_at) tt
    | inr (chain, e) ↦ rw (e, chain_at) (wired key chain e)
  ]

  insert-IsFiled :
      (m : HandlerMap S) (key : RType) (chain : Chain S)
      → IsFiled m
      → All (Q key) chain
      → IsFiled (insert key chain m)
  insert-IsFiled m key chain wired fits k c h = elim (Bool-cases (rtype_eq key k)) [
    | inl same ↦
        let e = (rtype_eq_iff key k).0 same in
        let found : chain ≡ c = ground (arith, lookup-insert key k chain m) in
        subst (λ x. All (Q x) c) e (subst (All (Q key)) found fits)
    | inr other ↦ wired k c (ground (arith, lookup-insert key k chain m))
  ]

  -- AddType keeps the map wired, in every mode.
  pub put_handler-IsFiled :
      (m m' : HandlerMap S) (key : RType) (h : Handler S) (mode : HandlerMode)
      → IsFiled m
      → Q key (some h)
      → put_handler m key h mode ≡ done m'
      → IsFiled m'
  unfolding put_handler
  put_handler-IsFiled m m' key h replace wired fits e =
      let chain : Chain S = some h ∷ [] in
      let same : insert key chain m ≡ m' = ground arith in
      subst IsFiled same (insert-IsFiled m key chain wired (fits, tt))
  put_handler-IsFiled m m' key h prefix wired fits e =
      let chain : Chain S = some h ∷ chain_at m key in
      let same : insert key chain m ≡ m' = ground arith in
      subst IsFiled same (insert-IsFiled m key chain wired (fits, chain_at-IsFiled m key wired))
  put_handler-IsFiled m m' key h postfix wired fits e =
      let chain : Chain S = chain_at m key ++ some h ∷ [] in
      let same : insert key chain m ≡ m' = ground arith in
      subst IsFiled same (
        insert-IsFiled m key chain wired
          (All-append key (chain_at m key) (some h ∷ []) (chain_at-IsFiled m key wired) (fits, tt)))
  put_handler-IsFiled m m' key h invalid wired fits e = cc
  put_handler-IsFiled m m' key h (unknown n) wired fits e = cc

module _ {S : Type 0} (P : S → Type 0) where
  -- The handler leaves a state of P in P.
  abbrev pub Keeps : RType → Option (Handler S) → Type 0
  Keeps key none = Unit
  Keeps key (some h) = (event : Event) (s : S) → P s → P (h event s).1

  after-Keeps :
      (r : Outcome × S) (f : S → Outcome × S)
      → P r.1
      → ((s : S) → P s → P (f s).1)
      → P (after r f).1
  after-Keeps (ok, s) f first rest = rest s first
  after-Keeps (err e, s) f first rest = first
  after-Keeps (panic d, s) f first rest = first

  run-Keeps :
      (chain : Chain S) (key : RType) (event : Event) (s : S)
      → All (Keeps key) chain
      → P s
      → P (run chain event s).1
  unfolding run
  run-Keeps [] key event s keeps p = p
  run-Keeps (none ∷ chain) key event s keeps p = run-Keeps chain key event s keeps.1 p
  run-Keeps (some h ∷ chain) key event s keeps p =
      after-Keeps (h event s) (run chain event) (keeps.0 event s p)
        (λ s' p'. run-Keeps chain key event s' keeps.1 p')

  along-Keeps :
      (m : HandlerMap S) (ts : List EventType) (event : Event) (s : S)
      → IsFiled Keeps m
      → P s
      → P (dispatch_along m ts event s).1
  unfolding dispatch_along
  along-Keeps m [] event s filed p = p
  along-Keeps m (t ∷ ts) event s filed p =
      let chain = chain_at m (plain t) in
      after-Keeps (run chain event s) (dispatch_along m ts event)
        (run-Keeps chain (plain t) event s (chain_at-IsFiled Keeps m (plain t) filed) p)
        (λ s' p'. along-Keeps m ts event s' filed p')

  pub dispatch-Keeps :
      (m : HandlerMap S) (event : Event) (s : S) → IsFiled Keeps m → P s → P (dispatch m event s).1
  unfolding dispatch
  dispatch-Keeps m event s filed p = along-Keeps m (dynamic_ancestry event) event s filed p

  pub narrowing-Keeps :
      (key : RType) (h : Handler S) → Keeps key (some h) → Keeps key (some (narrowing key h))
  unfolding narrowing
  narrowing-Keeps key h keeps event s p = elim (Bool-cases (narrowable_to event.dynamic key)) [
    | inl fits ↦ rw fits (keeps event s p)
    | inr other ↦ rw other p
  ]
