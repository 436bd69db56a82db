-- ===== src/Hmr/Lifetime.antt =====
-- Stop of internal/watching/debounce.go: nothing happens after it has returned.
use go_solid.Prelude.{[], ◌∷◌, true, false, ◌≡◌, refl, ◌∙◌, arith}
use go_solid.Hmr.{
  Watcher, arm, fire, stop, enqueue, drain, Moves, enqueues, arms, expires, fires, drains, notifies,
  returns, stops, connects, disconnects, Reaches, here, later,
}

-- The Debouncer has been stopped, its timer does not run, and no call of fn is running: what the
-- wait at the end of Stop asks for.
abbrev pub IsOver : Watcher → Type 0
IsOver w =
    (w.debounce.stopped ≡ true)
    × (w.debounce.armed ≡ false)
    × (w.debounce.running ≡ 0)
    × (w.calls ≡ [])

move-IsOver : (w w' : Watcher) → Moves w w' → IsOver w → IsOver w' × (w'.log ≡ w.log)
unfolding arm fire stop enqueue drain
move-IsOver w _ (enqueues _ names) (stopped, idle, none_left, no_call) = ground arith
move-IsOver w _ (arms _ n h) (stopped, idle, none_left, no_call) = ground arith
move-IsOver w _ (expires _ h) (stopped, idle, none_left, no_call) = ground arith
move-IsOver w _ (fires _ n h) (stopped, idle, none_left, no_call) = ground arith
move-IsOver w _ (drains _ n h) (stopped, idle, none_left, no_call) = ground arith
move-IsOver w _ (notifies _ [] more name names h) (stopped, idle, none_left, no_call) = ground arith
move-IsOver w _ (notifies _ (o ∷ others) more name names h) (stopped, idle, none_left, no_call) =
    ground arith
move-IsOver w _ (returns _ [] more h) (stopped, idle, none_left, no_call) = ground arith
move-IsOver w _ (returns _ (o ∷ others) more h) (stopped, idle, none_left, no_call) = ground arith
move-IsOver w _ (stops _) (stopped, idle, none_left, no_call) = ground arith
move-IsOver w _ (connects _ component c) (stopped, idle, none_left, no_call) = ground arith
move-IsOver w _ (disconnects _ component c) (stopped, idle, none_left, no_call) = ground arith

-- Once Stop has returned, which it does when no call of the callback is left, nothing is invalidated
-- and no tab is told to reload, whatever the threads still do.
pub reaches-log : (w w' : Watcher) → Reaches w w' → IsOver w → w'.log ≡ w.log
reaches-log w _ (here _) over = refl
reaches-log w w' (later _ v _ move rest) over =
    let (still, same) = move-IsOver w v move over in reaches-log v w' rest still ∙ same
