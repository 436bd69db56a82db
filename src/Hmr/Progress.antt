-- ===== src/Hmr/Progress.antt =====
-- internal/hmr/watching.go with internal/watching/debounce.go: what is pending can always be cleared.
use go_solid.Prelude.{
  ◌∙◌, ℕ, suc, zero, Text, text_comparable, List, [], ◌∷◌, true, false, is_empty, ◌≡◌, refl, arith,
  inl, inr, Bool-cases, ◌⊎◌,
}
use go_solid.Hmr.{
  notify, Watcher, arm, fire, drain, Moves, arms, expires, fires, drains, notifies, returns,
  Reaches, here, later,
}
use go_solid.Hmr.Pending.{IsDue}

list_empty : (xs : List Text) → is_empty xs ≡ true → xs ≡ []
list_empty [] h = refl
list_empty (x ∷ xs) h = cc

ℕ-cases : (n : ℕ) → (n ≡ 0) ⊎ ((m : ℕ) × (n ≡ suc m))
ℕ-cases zero = inl refl
ℕ-cases (suc m) = inr (m, refl)

reaches-append : (u v w : Watcher) → Reaches u v → Reaches v w → Reaches u w
reaches-append u _ w (here _) next = next
reaches-append u v w (later _ t _ move rest) next =
    later u t w move (reaches-append t v w rest next)

-- Nothing is pending, and every call of the callback has returned.
Clears : Watcher → Type 0
Clears w = (w' : Watcher) × Reaches w w' × (w'.pending ≡ []) × (w'.calls ≡ [])

then-Clears : (w v : Watcher) → Moves w v → Clears v → Clears w
unfolding Clears
then-Clears w v move (w', steps, clear, over) = (w', later w v w' move steps, clear, over)

-- The loop of the first call runs to its end.
call-ends :
    (w : Watcher) (names : List Text) (more : List (List Text))
    → w.calls ≡ names ∷ more
    → (w' : Watcher) × Reaches w w' × (w'.pending ≡ w.pending) × (w'.calls ≡ more)
unfolding notify
call-ends w [] more e =
    let v = record w { calls = more } in (v, later w v v (returns w [] more e) (here v), refl, refl)
call-ends w (name ∷ names) more e =
    let v = notify name (record w { calls = names ∷ more }) in
    let (w', steps, same, left) = call-ends v names more refl in
    (w', later w v w' (notifies w [] more name names e) steps, same, left)

calls-end : (w : Watcher) (calls : List (List Text)) → w.calls ≡ calls → w.pending ≡ [] → Clears w
unfolding Clears
calls-end w [] e clear = (w, here w, clear, e)
calls-end w (names ∷ more) e clear =
    let (v, first, same, left) = call-ends w names more e in
    let (w', rest, done, over) = calls-end v more left (same ∙ clear) in
    (w', reaches-append w v w' first rest, done, over)

-- The way to the callback: let it drain, after its `fire`, after its timer, after its Arm.
drains-Clears : (w : Watcher) (n : ℕ) → w.debounce.running ≡ suc n → Clears w
unfolding drain
drains-Clears w n e =
    let v = drain (record w { debounce = record w.debounce { running = n } }) in
    then-Clears w v (drains w n e) (calls-end v (w.pending ∷ w.calls) refl refl)

fires-Clears :
    (w : Watcher) (n : ℕ) → w.debounce.stopped ≡ false → w.debounce.expired ≡ suc n → Clears w
unfolding fire
fires-Clears w n live e = then-Clears w _ (fires w n e) (
    drains-Clears (record w { debounce = fire (record w.debounce { expired = n }) })
      w.debounce.running (ground (arith, live)))

expires-Clears : (w : Watcher) → w.debounce.stopped ≡ false → w.debounce.armed ≡ true → Clears w
expires-Clears w live e = then-Clears w _ (expires w e) (
    fires-Clears
      (record w {
        debounce = record w.debounce { armed = false; expired = suc w.debounce.expired };
      })
      w.debounce.expired live refl)

arms-Clears : (w : Watcher) (n : ℕ) → w.debounce.stopped ≡ false → w.arming ≡ suc n → Clears w
unfolding arm
arms-Clears w n live e = then-Clears w _ (arms w n e) (
    expires-Clears (record w { arming = n; debounce = arm w.debounce }) (ground (arith, live))
      (ground (arith, live)))

-- Where nothing is pending or some thread is on the way to the callback, in a watcher that has not
-- been stopped, steps reach a state in which nothing is pending and every call of the callback has
-- returned.
pub due-clears :
    (w : Watcher)
    → IsDue w
    → w.debounce.stopped ≡ false
    → (w' : Watcher) × Reaches w w' × (w'.pending ≡ []) × (w'.calls ≡ [])
unfolding Clears
due-clears w due live = elim (ℕ-cases w.debounce.running) [
  | inr (n, e) ↦ drains-Clears w n e
  | inl no_call ↦ elim (ℕ-cases w.debounce.expired) [
    | inr (n, e) ↦ fires-Clears w n live e
    | inl no_timer ↦ elim (Bool-cases w.debounce.armed) [
      | inl e ↦ expires-Clears w live e
      | inr idle ↦ elim (ℕ-cases w.arming) [
        | inr (n, e) ↦ arms-Clears w n live e
        | inl no_arm ↦ calls-end w w.calls refl (list_empty w.pending (ground arith))
      ]
    ]
  ]
]
