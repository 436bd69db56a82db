-- ===== src/Watching/Tests.antt =====
-- A folder that arrives at once in the tree of a reactive registry. The relative path of a file is what
-- follows the root and a separator.
use go_solid.Prelude.{
  Text, text, text_comparable, Option, none, some, [], ◌∷◌, ◌++◌, map, true, false, ◌≡◌, refl,
  drop_prefix, lookup, insert, delete, has_suffix, trim_suffix,
}
use go_solid.Paths.{base, file_ext}
use go_solid.Component.{Component, mount_root_id_for, new_component}
use go_solid.Meta.{split_selector}
use go_solid.Registry.{
  Error, adopt, add_file, name_is_addressable, derived_name, eligible, registry_extension,
}
use go_solid.Registry.Walk.{Tree, file, folder, no_more, entry, skip_dir}
use go_solid.Registry.Reactive.{created, meets, run}
use go_solid.Registry.Reloading.{shown_files}
use go_solid.Watching.{Event, Watching, add_tree, announce_creation, handle}
use go_solid.Watching.Announcing.{handle-announced, announced, shown_dirs}
use go_solid.Watching.Reactive.{Owner, reactive_config, handle-run}

abbrev rel_of : Text → Text → Option Text
rel_of root path = drop_prefix path (root ++ text "/")

abbrev message : Error → Text
message e = text "refused"

abbrev watches : Text → Option Text
watches path = none

abbrev unread : Text → Text
unread path = text "unread"

abbrev arrived : Event
arrived = record {
  name = text "/c/auth";
  create = true;
  write = false;
  remove = false;
  rename = false;
}

abbrev auth : Tree
auth = folder (text "/c/auth") (text "auth") (
    entry (file (text "/c/auth/Login.tsx")) (
      entry
        (folder (text "/c/auth/.git") (text ".git")
          (entry (file (text "/c/auth/.git/x.tsx")) no_more))
        no_more))

abbrev before : Watching Owner
before = record {
  watched = text "/c" ∷ [];
  state = record {
    registry = record { root = text "/c"; components = []; reactive = true };
    dropped = [];
    touched = [];
    errors = [];
  };
}

skip_auth : skip_dir (base (text "/c/auth")) (text "/c/auth") (text "/c") ≡ false
unfolding skip_dir base
skip_auth = refl

walk_auth :
    (add_tree watches unread (reactive_config rel_of message) (text "/c/auth") true auth before).1
    ≡ none
unfolding add_tree announce_creation skip_dir
walk_auth = refl

handle-run_example :
    let files = shown_files (text "/c/auth") auth in
    let after =
      (handle watches unread
        (reactive_config rel_of message)
        (text "/c")
        arrived
        (some auth)
        before).state in
    (after.registry ≡ run rel_of before.state.registry (map (λ p. meets (created p)) files))
    × (after.touched ≡ [] ++ files)
handle-run_example =
    handle-run rel_of message watches unread (text "/c") arrived auth before refl skip_auth
      walk_auth

handle-announced_example :
    let after =
      handle watches unread
        (reactive_config rel_of message)
        (text "/c")
        arrived
        (some auth)
        before in
    (after.state
      ≡ announced watches unread
          (reactive_config rel_of message)
          (shown_files (text "/c/auth") auth)
          before.state)
    × (after.watched ≡ (text "/c" ∷ []) ++ shown_dirs (text "/c/auth") auth)
handle-announced_example =
    handle-announced watches unread (reactive_config rel_of message) (text "/c") arrived auth before
      refl skip_auth walk_auth

-- The file of the directory is registered, that of .git is not, and the directory is watched beside the root.
arrived_now :
    let after =
      handle watches unread
        (reactive_config rel_of message)
        (text "/c")
        arrived
        (some auth)
        before in
    (after.watched ≡ text "/c" ∷ text "/c/auth" ∷ [])
    × (after.state.touched ≡ text "/c/auth/Login.tsx" ∷ [])
    × (map (λ (c : Text × Component). c.0) after.state.registry.components ≡ text "auth/Login" ∷ [])
unfolding handle add_tree announce_creation skip_dir base add_file adopt mount_root_id_for
    name_is_addressable derived_name eligible registry_extension file_ext has_suffix trim_suffix
    lookup insert delete new_component split_selector
arrived_now = (refl, refl, refl)
