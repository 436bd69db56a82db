-- ===== src/Watching/Reactive.antt =====
-- The callbacks that MakeReactive of internal/registry.go makes its watcher with, and a directory that arrives
-- while it watches.
use go_solid.Prelude.{
  Text, Option, none, some, List, [], ◌∷◌, ◌++◌, append_assoc, append-nil, map, true, false, ◌≡◌,
  refl, sym, ◌∙◌, ap,
}
use go_solid.Paths.{base}
use go_solid.Registry.{Registry, Error, Added, skipped, added, failed, add_file, remove_file}
use go_solid.Registry.Walk.{Tree, skip_dir}
use go_solid.Registry.Reactive.{created, meets, on_event, step, run}
use go_solid.Registry.Reloading.{shown_files}
use go_solid.Watching.{Event, Config, Watching, report, add_tree, handle}
use go_solid.Watching.Announcing.{announced, handle-announced}

-- The registry, the names and the files that onDrop and onTouch were called with, and what onErr was
pub record Owner : Type 0 where
  pub registry : Registry
  pub dropped : List Text
  pub touched : List Text
  pub errors : List Text

module _ (rel : Text → Text → Option Text) (message : Error → Text) where
  abbrev pub fault_of : Added → Option Text
  fault_of (failed e) = some (message e)
  fault_of skipped = none
  fault_of (added name) = none

  -- OnCreation, OnDeletion and OnMutation
  abbrev pub on_creation : Text → Unit {0} → Owner → Owner × Option Text
  on_creation path derived s =
      let (after, result) = add_file rel s.registry path in
      (record s { registry = after; touched = s.touched ++ path ∷ [] }, fault_of result)

  abbrev pub on_drop : Registry × Option Text → Owner → Owner
  on_drop (after, none) s = record s { registry = after }
  on_drop (after, some name) s = record s { registry = after; dropped = s.dropped ++ name ∷ [] }

  abbrev pub on_deletion : Text → Unit {0} → Owner → Owner × Option Text
  on_deletion path derived s = (on_drop (remove_file rel s.registry path) s, none)

  abbrev pub on_mutation : Text → Unit {0} → Owner → Owner × Option Text
  on_mutation path derived s = (record s { touched = s.touched ++ path ∷ [] }, none)

  -- MakeReactive's config, after polyfillConfig
  abbrev pub reactive_config : Config Owner (Unit {0})
  reactive_config = record {
    creation = on_creation;
    deletion = on_deletion;
    mutation = on_mutation;
    err = λ e s. record s { errors = s.errors ++ e ∷ [] };
    derive = λ event. tt;
  }

  module _ (add : Text → Option Text) (unread : Text → Text) where
    report-kept :
        (s : Owner) (fault : Option Text)
        → ((report add unread reactive_config (s, fault)).registry ≡ s.registry)
          × ((report add unread reactive_config (s, fault)).touched ≡ s.touched)
    report-kept s none = (refl, refl)
    report-kept s (some e) = (refl, refl)

    announced-run :
        (files : List Text) (s : Owner)
        → ((announced add unread reactive_config files s).registry
            ≡ run rel s.registry (map (λ path. meets (created path)) files))
          × ((announced add unread reactive_config files s).touched ≡ s.touched ++ files)
    unfolding run step on_event
    announced-run [] s = (refl, sym (append-nil s.touched))
    announced-run (path ∷ files) s =
        let (next, fault) = on_creation path tt s in
        let told = report add unread reactive_config (next, fault) in
        let (same, touches) = report-kept next fault in
        let (ran, touched_all) = announced-run files told in
        (
          ran ∙ ap (λ r. run rel r (map (λ p. meets (created p)) files)) same,
          touched_all ∙ ap (λ ts. ts ++ files) touches ∙ append_assoc s.touched (path ∷ []) files,
        )

    -- In a reactive registry, the creation of a directory whose walk reports no error, in a place that is not skipped, leaves the
    -- registry that the creation of each file that a Reload of the directory would see, one after the other in
    -- the order of the walk, leaves, and calls onTouch for each of those files, in that order.
    pub handle-run :
        (root : Text) (e : Event) (tree : Tree) (w : Watching Owner)
        → e.create ≡ true
        → skip_dir (base e.name) e.name root ≡ false
        → (add_tree add unread reactive_config e.name true tree w).1 ≡ none
        → let files = shown_files e.name tree in
          let after = (handle add unread reactive_config root e (some tree) w).state in
          (after.registry ≡ run rel w.state.registry (map (λ p. meets (created p)) files))
          × (after.touched ≡ w.state.touched ++ files)
    handle-run root e tree w made outside fine =
        let (state, dirs) =
          handle-announced add unread reactive_config root e tree w made outside fine in
        let files = shown_files e.name tree in
        let (ran, touched_all) = announced-run files w.state in
        (
          ap (λ (s : Owner). s.registry) state ∙ ran,
          ap (λ (s : Owner). s.touched) state ∙ touched_all,
        )
