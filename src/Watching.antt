-- ===== src/Watching.antt =====
-- internal/watching/directoryWatcher.go: the watcher of a tree, over the registry's Tree for what stands in
-- the file system. Its callbacks act on a state S of whoever it is made for; fsnotify's Add, which may
-- fail, is a parameter. The goroutine and the mutex of Stop are not modelled: loop is a run of it.
pub mod Announcing
pub mod Reactive
mod Tests
use go_solid.Prelude.{
  Text, text, Option, none, some, List, [], ◌∷◌, ◌++◌, ◌&&◌, ◌||◌, not, Bool, true, false,
  if◌then◌else◌,
}
use go_solid.Paths.{base}
use go_solid.Registry.Walk.{Tree, Forest, file, broken, folder, no_more, entry, skip_dir}

-- fsnotify.Event, with a Boolean for each bit of Op that is read
pub record Event : Type 0 where
  pub name : Text
  pub create : Bool
  pub write : Bool
  pub remove : Bool
  pub rename : Bool

-- A callback's new state and the error that it returns
abbrev pub Callback : Type 0 → Type 0 → Type 0
Callback S T = Text → T → S → S × Option Text

-- DWConfig, as it is supplied and after polyfillConfig
pub record DwConfig (S T : Type 0) : Type 0 where
  pub on_creation : Option (Callback S T)
  pub on_deletion : Option (Callback S T)
  pub on_mutation : Option (Callback S T)
  pub on_err : Option (Text → S → S)
  pub derive_and_include : Option (Event → T)

pub record Config (S T : Type 0) : Type 0 where
  pub creation : Callback S T
  pub deletion : Callback S T
  pub mutation : Callback S T
  pub err : Text → S → S
  pub derive : Event → T

abbrev pub or_else {ℓ} : {A : Type ℓ} → A → Option A → A
or_else other none = other
or_else other (some a) = a

module _ {S T : Type 0} where
  -- noop.TR_o_Err
  abbrev pub no_callback : Callback S T
  no_callback path derived s = (s, none)

  -- polyfillConfig, with the zero value of T; the error that is logged changes no state.
  unfoldable pub polyfill_config : T → Option (DwConfig S T) → Option (Config S T)
  polyfill_config zero_value none = none
  polyfill_config zero_value (some cfg) = some (record {
    creation = or_else no_callback cfg.on_creation;
    deletion = or_else no_callback cfg.on_deletion;
    mutation = or_else no_callback cfg.on_mutation;
    err = or_else (λ e s. s) cfg.on_err;
    derive = or_else (λ event. zero_value) cfg.derive_and_include;
  })

-- A watcher: the directories that fsnotify watches for it, and its owner's state
pub record Watching (S : Type 0) : Type 0 where
  pub watched : List Text
  pub state : S

module _ {S T : Type 0} (add : Text → Option Text) (unread : Text → Text) (cfg : Config S T) where
  -- `if err := …; err != nil { OnErr(err) }`
  abbrev pub report : S × Option Text → S
  report (s, none) = s
  report (s, some e) = cfg.err e s

  abbrev pub created_event : Text → Event
  created_event path = record {
    name = path;
    create = true;
    write = false;
    remove = false;
    rename = false;
  }

  -- announceCreation
  unfoldable pub announce_creation : Text → Watching S → Watching S
  announce_creation path w = record w {
    state = report (cfg.creation path (cfg.derive (created_event path)) w.state);
  }

  -- fsw.Add of a directory, and what the walk does below it
  abbrev pub watch_then :
      Text → Watching S → (Watching S → Watching S × Option Text) → Watching S × Option Text
  watch_then path w below = elim (add path) [
    | some e ↦ (w, some e)
    | none ↦ below (record w { watched = w.watched ++ path ∷ [] })
  ]

  -- A walk goes on unless it was stopped.
  abbrev pub and_then :
      Watching S × Option Text → (Watching S → Watching S × Option Text) → Watching S × Option Text
  and_then (w, some e) next = (w, some e)
  and_then (w, none) next = next w

  -- addTree, for its root; `unread` is the error that WalkDir reports of an entry.
  unfoldable mutual
    unfolding skip_dir announce_creation

    pub add_tree : Text → Bool → Tree → Watching S → Watching S × Option Text
    add_tree root announce (file path) w = (if announce then announce_creation path w else w, none)
    add_tree root announce (broken path) w = (w, some (unread path))
    add_tree root announce (folder path name ts) w =
        let below = watch_then path w (add_forest root announce ts) in
        if skip_dir name path root then (w, none) else below

    pub add_forest : Text → Bool → Forest → Watching S → Watching S × Option Text
    add_forest root announce no_more w = (w, none)
    add_forest root announce (entry t ts) w =
        and_then (add_tree root announce t w) (add_forest root announce ts)

  abbrev pub report_walk : Watching S × Option Text → Watching S
  report_walk (w, none) = w
  report_walk (w, some e) = record w { state = cfg.err e w.state }

  -- The switch of handle
  unfoldable pub dispatch_event : Event → Watching S → Watching S
  dispatch_event event w =
      if event.create
      then record w { state = report (cfg.creation event.name (cfg.derive event) w.state) }
      else if event.remove || event.rename
      then record w { state = report (cfg.deletion event.name (cfg.derive event) w.state) }
      else if event.write
      then record w { state = report (cfg.mutation event.name (cfg.derive event) w.state) }
      else w

  -- handle, with what a walk of the event's path finds if os.Stat finds a directory there
  abbrev pub new_directory : Text → Event → Option Tree → Watching S → Watching S
  new_directory root event (some tree) w =
      if skip_dir (base event.name) event.name root
      then w
      else report_walk (add_tree event.name true tree w)
  new_directory root event none w = dispatch_event event w

  unfoldable pub handle : Text → Event → Option Tree → Watching S → Watching S
  unfolding base skip_dir add_tree dispatch_event
  handle root event there w =
      if event.create then new_directory root event there w else dispatch_event event w

  -- What the loop receives: an event, with what handle is to find at its path; an error; or the closing of a
  -- channel, that of Stop or one of fsnotify's
  pub data Input : Type 0 where
    event : Event → Option Tree → Input
    error : Text → Input
    closed : Input

  -- loop
  unfoldable pub loop : Text → List Input → Watching S → Watching S
  unfolding handle
  loop root [] w = w
  loop root (closed ∷ inputs) w = w
  loop root (event e there ∷ inputs) w = loop root inputs (handle root e there w)
  loop root (error e ∷ inputs) w = loop root inputs (record w { state = cfg.err e w.state })

  -- NewDirectoryWatcher, from a watcher of fsnotify's that could be made and a complete config: the
  -- watcher and its loop, or the error of the walk
  unfoldable pub new_directory_watcher : Text → Tree → S → Watching S × Option Text
  unfolding add_tree
  new_directory_watcher root tree s = add_tree root false tree (record { watched = []; state = s })
