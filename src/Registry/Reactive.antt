-- ===== src/Registry/Reactive.antt =====
-- MakeReactive of internal/registry.go: what its watcher's callbacks do to the registry, and what
-- they tell the bundler.
use go_solid.Prelude.{Text, Option, none, some, List, [], ◌∷◌, not, true, if◌then◌else◌}
use go_solid.Registry.{
  Registry, Error, no_tree, already_reactive, Added, skipped, added, failed, adopt, add_file,
  remove_file, rooted, close,
}
use go_solid.Registry.Walk.{Tree, reload}

pub data FileEvent : Type 0 where
  created deleted mutated : Text → FileEvent

-- A call of onDrop, of onTouch, or an error that the callback returns to the watcher.
pub data Notice : Type 0 where
  dropped touched : Text → Notice
  fault : Error → Notice

abbrev fault_of : Added → List Notice
fault_of (failed e) = fault e ∷ []
fault_of skipped = []
fault_of (added name) = []

unfoldable pub on_event :
    (Text → Text → Option Text) → Registry → FileEvent → Registry × List Notice
on_event rel this (created file) =
    let (after, result) = add_file rel this file in (after, touched file ∷ fault_of result)
on_event rel this (deleted file) =
    let (after, removed) = remove_file rel this file in
    (after, elim removed [ none ↦ [] | some name ↦ dropped name ∷ [] ])
on_event rel this (mutated file) = (this, touched file ∷ [])

-- The guards; the watcher itself is internal/watching.
unfoldable pub make_reactive : Registry → Registry × Option Error
make_reactive this =
    if not (rooted this)
    then (this, some no_tree)
    else if this.reactive
    then (this, some already_reactive)
    else (record this { reactive = true }, none)

pub data Call : Type 0 where
  adopts : Text → Text → Text → Call
  reloads : Tree → Call
  closes : Call
  meets : FileEvent → Call

unfoldable pub step : (Text → Text → Option Text) → Registry → Call → Registry
unfolding on_event
step rel this (adopts name path ext) = (adopt this name path ext).0
step rel this (reloads tree) = (reload rel this tree).0
step rel this closes = close this
step rel this (meets event) = (on_event rel this event).0

unfoldable pub run : (Text → Text → Option Text) → Registry → List Call → Registry
unfolding step
run rel this [] = this
run rel this (c ∷ calls) = run rel (step rel this c) calls
