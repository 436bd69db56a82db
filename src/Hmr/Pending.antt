-- ===== src/Hmr/Pending.antt =====
-- internal/hmr/watching.go: a component that a changed file touched is not forgotten.
use go_solid.Prelude.{
  ◌+◌, ltb, Text, text_eq, text_eq_iff, text_comparable, List, [], ◌∷◌, ◌++◌, append-nil,
  append_assoc, Bool, true, false, ◌||◌, if◌then◌else◌, is_empty, contains, any, any-append, ◌≡◌,
  refl, sym, ap, ◌∙◌, arith, inl, inr, Bool-cases,
}
use go_solid.Hmr.{
  Effect, invalidated, reloaded, Watcher, arm, fire, stop, mark, enqueue, reload, notify, drain,
  Moves, enqueues, arms, expires, fires, drains, notifies, returns, stops, connects, disconnects,
  Reaches, here, later, new_watcher,
}

-- Where something is pending, some thread is on the way to the callback, unless the Debouncer has
-- been stopped.
abbrev pub IsDue : Watcher → Type 0
IsDue w =
    (is_empty w.pending
      || w.debounce.stopped
      || w.debounce.armed
      || ltb 0 (w.arming + w.debounce.expired + w.debounce.running))
    ≡ true

move-IsDue : (w w' : Watcher) → Moves w w' → IsDue w → IsDue w'
unfolding arm fire stop enqueue drain notify
move-IsDue w _ (enqueues _ names) due = ground arith
move-IsDue w _ (arms _ n h) due = ground arith
move-IsDue w _ (expires _ h) due = ground arith
move-IsDue w _ (fires _ n h) due = ground arith
move-IsDue w _ (drains _ n h) due = ground arith
move-IsDue w _ (notifies _ others more name names h) due = due
move-IsDue w _ (returns _ others more h) due = due
move-IsDue w _ (stops _) due = ground arith
move-IsDue w _ (connects _ component c) due = due
move-IsDue w _ (disconnects _ component c) due = due

reaches_from : (w w' : Watcher) → Reaches w w' → IsDue w → IsDue w'
reaches_from w _ (here _) due = due
reaches_from w w' (later _ v _ move rest) due = reaches_from v w' rest (move-IsDue w v move due)

-- In every state that a new watcher reaches, a pending component has a thread on the way to reload
-- it, unless the watcher has been stopped.
pub reaches-IsDue : (w : Watcher) → Reaches new_watcher w → IsDue w
reaches-IsDue w steps = reaches_from new_watcher w steps refl

abbrev pub is_invalidated : Text → Effect → Bool
is_invalidated name (invalidated other) = text_eq name other
is_invalidated name (reloaded other c) = false

-- The component is pending, or left to the loop of a call of the callback.
abbrev pub awaited : Text → Watcher → Bool
awaited name w = contains name w.pending || any (contains name) w.calls

mark-contains :
    (name : Text) (names pending : List Text)
    → contains name (mark names pending) ≡ (contains name names || contains name pending)
unfolding mark
mark-contains name [] pending = refl
mark-contains name (n ∷ names) pending = ground (
  arith,
  mark-contains name names (if contains n pending then pending else n ∷ pending),
  text_eq_iff name n,
)

-- What a run adds to the log, and that the component is awaited or has been invalidated among it.
abbrev Adds : Watcher → Watcher → List Effect → Type 0
Adds w w' effects = w'.log ≡ w.log ++ effects

abbrev Served : Watcher → Watcher → Text → Type 0
Served w w' name =
    (effects : List Effect) × Adds w w' effects
    × ((awaited name w' || any (is_invalidated name) effects) ≡ true)

still : (w w' : Watcher) (name : Text) → w'.log ≡ w.log → awaited name w' ≡ true → Served w w' name
still w w' name same there = ([], same ∙ sym (append-nil w.log), ground (arith, there))

calls-append :
    (name : Text) (others more : List (List Text)) (call : List Text)
    → any (contains name) (others ++ call ∷ more)
      ≡ (contains name call || any (contains name) (others ++ more))
calls-append name others more call =
    ground (
      arith,
      any-append (contains name) others (call ∷ more),
      any-append (contains name) others more,
    )

move-Served : (w w' : Watcher) (name : Text) → Moves w w' → awaited name w ≡ true → Served w w' name
unfolding enqueue drain notify
move-Served w _ name (enqueues _ names) h =
    still w (enqueue names w) name (ground arith)
      (ground (arith, mark-contains name names w.pending))
move-Served w _ name (arms _ n e) h = ([], sym (append-nil w.log), ground arith)
move-Served w _ name (expires _ e) h = ([], sym (append-nil w.log), ground arith)
move-Served w _ name (fires _ n e) h = ([], sym (append-nil w.log), ground arith)
move-Served w _ name (drains _ n e) h = ([], sym (append-nil w.log), ground arith)
move-Served w _ name (notifies _ others more next names e) h =
    let effects = invalidated next ∷ reload w.conns next in
    let before = calls-append name others more (next ∷ names) in
    let after = calls-append name others more names in
    (effects, refl, ground (arith, e, before, after))
move-Served w _ name (returns _ others more e) h =
    ([], sym (append-nil w.log), ground (arith, e, calls-append name others more []))
move-Served w _ name (stops _) h = ([], sym (append-nil w.log), ground arith)
move-Served w _ name (connects _ component c) h = ([], sym (append-nil w.log), ground arith)
move-Served w _ name (disconnects _ component c) h = ([], sym (append-nil w.log), ground arith)

move-log : (w w' : Watcher) → Moves w w' → (effects : List Effect) × Adds w w' effects
unfolding enqueue drain notify
move-log w _ (enqueues _ names) = ([], ground (arith, append-nil w.log))
move-log w _ (arms _ n e) = ([], sym (append-nil w.log))
move-log w _ (expires _ e) = ([], sym (append-nil w.log))
move-log w _ (fires _ n e) = ([], sym (append-nil w.log))
move-log w _ (drains _ n e) = ([], sym (append-nil w.log))
move-log w _ (notifies _ others more next names e) = (invalidated next ∷ reload w.conns next, refl)
move-log w _ (returns _ others more e) = ([], sym (append-nil w.log))
move-log w _ (stops _) = ([], sym (append-nil w.log))
move-log w _ (connects _ component c) = ([], sym (append-nil w.log))
move-log w _ (disconnects _ component c) = ([], sym (append-nil w.log))

reaches-Adds : (w w' : Watcher) → Reaches w w' → (effects : List Effect) × Adds w w' effects
reaches-Adds w _ (here _) = ([], sym (append-nil w.log))
reaches-Adds w w' (later _ v _ move rest) =
    let (first, e) = move-log w v move in
    let (then_on, f) = reaches-Adds v w' rest in
    (first ++ then_on, f ∙ ap (λ l. l ++ then_on) e ∙ append_assoc w.log first then_on)

-- A component that is pending, or left to the loop of a call of the callback, is so in every later
-- state, or its invalidation has been added to what was done.
pub reaches-Served :
    (w w' : Watcher) (name : Text)
    → Reaches w w'
    → awaited name w ≡ true
    → (effects : List Effect) × (w'.log ≡ w.log ++ effects)
      × ((awaited name w' || any (is_invalidated name) effects) ≡ true)
reaches-Served w _ name (here _) h = still w w name refl h
reaches-Served w w' name (later _ v _ move rest) h =
    let (first, e, after_first) = move-Served w v name move h in
    elim (Bool-cases (awaited name v)) [
      | inl waits ↦
          let (next, f, after_next) = reaches-Served v w' name rest waits in
          (
            first ++ next,
            f ∙ ap (λ l. l ++ next) e ∙ append_assoc w.log first next,
            ground (arith, any-append (is_invalidated name) first next, after_next),
          )
      | inr gone ↦
          let (next, f) = reaches-Adds v w' rest in
          (
            first ++ next,
            f ∙ ap (λ l. l ++ next) e ∙ append_assoc w.log first next,
            ground (arith, any-append (is_invalidated name) first next, after_first, gone),
          )
    ]
