-- ===== src/Hmr/Tests.antt =====
-- The theorems on the watcher at one whose component is pending.
use go_solid.Prelude.{
  any, ◌||◌, Text, text, text_comparable, List, [], ◌∷◌, ◌++◌, true, false, ◌≡◌, refl,
}
use go_solid.Hmr.{
  Effect, Watcher, arm, stop, enqueue, mark, enqueues, arms, Reaches, here, later, new_watcher,
}
use go_solid.Hmr.Lifetime.{reaches-log}
use go_solid.Hmr.Pending.{IsDue, awaited, is_invalidated, reaches-IsDue, reaches-Served}
use go_solid.Hmr.Progress.{due-clears}

abbrev login : Text
login = text "auth/Login"

abbrev touched : Watcher
touched = enqueue (login ∷ []) new_watcher

abbrev armed_once : Watcher
armed_once = record touched { arming = 0; debounce = arm touched.debounce }

abbrev steps : Reaches new_watcher touched
steps = later new_watcher touched touched (enqueues new_watcher (login ∷ [])) (here touched)

reaches-IsDue_example : IsDue touched
reaches-IsDue_example = reaches-IsDue touched steps

touched-arming : touched.arming ≡ 1
unfolding enqueue
touched-arming = refl

touched-login : awaited login touched ≡ true
unfolding enqueue mark
touched-login = refl

reaches-Served_example :
    (effects : List Effect) × (armed_once.log ≡ touched.log ++ effects)
    × ((awaited login armed_once || any (is_invalidated login) effects) ≡ true)
reaches-Served_example =
    reaches-Served touched armed_once login
      (later touched armed_once armed_once (arms touched 0 touched-arming) (here armed_once))
      touched-login

touched-live : touched.debounce.stopped ≡ false
unfolding enqueue
touched-live = refl

due-clears_example : (w : Watcher) × Reaches touched w × (w.pending ≡ []) × (w.calls ≡ [])
due-clears_example = due-clears touched (reaches-IsDue touched steps) touched-live

abbrev stopped : Watcher
stopped = record new_watcher { debounce = stop new_watcher.debounce }

abbrev late : Watcher
late = enqueue (login ∷ []) stopped

reaches-log_example : late.log ≡ stopped.log
unfolding stop
reaches-log_example =
    reaches-log stopped late (later stopped late late (enqueues stopped (login ∷ [])) (here late))
      (refl, refl, refl, refl)
