-- ===== src/Registry/Tests.antt =====
-- Runs of the registry, and its theorems at a registry of two files. The relative path of a file is
-- what follows the root and a separator.
use go_solid.Prelude.{
  Text, text, text_eq, text_comparable, Option, none, some, [], ◌∷◌, ◌++◌, true, false, ◌≡◌, ◌↔◌,
  refl, drop_prefix, lookup, insert, delete, has_suffix, trim_suffix, contains, if◌then◌else◌,
}
use go_solid.Meta.{split_selector}
use go_solid.Paths.{file_ext}
use go_solid.Component.{Component, mount_root_id_for, new_component, with_export}
use go_solid.Registry.{
  Registry, added, failed, duplicate, eligible, registry_extension, derived_name, adopt, add_file,
  remove_file, name_for_file, find, name_is_addressable,
}
use go_solid.Registry.Walk.{
  Tree, file, folder, no_more, entry, skip_dir, visit_file, walk_tree, reload,
}
use go_solid.Registry.Reactive.{created, deleted, meets, run}
use go_solid.Registry.Keyed.{IsKeyed, run-IsKeyed}
use go_solid.Registry.Binding.{file_of, remove_file-add_file}
use go_solid.Registry.Reloading.{reload-shown_files, shown_files}

abbrev rel_of : Text → Text → Option Text
rel_of root path = drop_prefix path (root ++ text "/")

abbrev login : Text
login = text "/c/auth/Login.tsx"

abbrev empty : Registry
empty = record { root = text "/c"; components = []; reactive = false }

program : Unit {0}
unfolding add_file remove_file adopt find mount_root_id_for name_is_addressable name_for_file
    derived_name eligible registry_extension file_ext has_suffix trim_suffix lookup insert delete
    new_component split_selector
program = tt

abbrev login_component : Component
login_component = record {
  name = text "auth/Login";
  path = login;
  ext = text ".tsx";
  export = [];
  mount_root_id = text "auth-Login-go-solid-root";
}

abbrev one_file : Registry
one_file = record empty { components = (text "auth/Login", login_component) ∷ [] }

add_login : add_file rel_of empty login ≡ (one_file, added (text "auth/Login"))
unfolding program
add_login = refl

-- An extension in capitals is recognised, and is not taken off the name.
add_capitals : (add_file rel_of empty (text "/c/Foo.TSX")).1 ≡ added (text "Foo.TSX")
unfolding program
add_capitals = refl

add_duplicate :
    (add_file rel_of one_file (text "/c/auth/Login.jsx")).1
    ≡ failed (duplicate (text "auth/Login") login (text "/c/auth/Login.jsx"))
unfolding program
add_duplicate = refl

abbrev tree : Tree
tree = folder (text "/c") (text "c") (
    entry
      (folder (text "/c/node_modules") (text "node_modules")
        (entry (file (text "/c/node_modules/x.js")) no_more))
      (entry (file login) no_more))

reload-tree : reload rel_of empty tree ≡ (one_file, none)
unfolding program reload skip_dir visit_file walk_tree
reload-tree = refl

reload-shown_files_example : (file_of one_file (text "auth/Login") ≡ some login) ↔ (
    (contains login (shown_files (text "/c") tree) ≡ true)
    × (eligible login ≡ true)
    × (derived_name rel_of (text "/c") login ≡ some (text "auth/Login")))
reload-shown_files_example =
    reload-shown_files rel_of empty one_file tree (text "auth/Login") login refl reload-tree

remove_file-add_file_example :
    ((remove_file rel_of one_file login).1 ≡ some (text "auth/Login"))
    × ((n : Text)
        → file_of (remove_file rel_of one_file login).0 n
          ≡ (if text_eq (text "auth/Login") n then none else file_of empty n))
remove_file-add_file_example =
    remove_file-add_file rel_of empty one_file login (text "auth/Login") add_login

empty-IsKeyed : IsKeyed empty.components
unfolding lookup
empty-IsKeyed name c h = cc

run-IsKeyed_example :
    IsKeyed (run rel_of empty (meets (created login) ∷ meets (deleted login) ∷ [])).components
run-IsKeyed_example =
    run-IsKeyed rel_of empty (meets (created login) ∷ meets (deleted login) ∷ []) empty-IsKeyed

one_file-IsKeyed : IsKeyed one_file.components
unfolding program run
one_file-IsKeyed = run-IsKeyed rel_of empty (meets (created login) ∷ []) empty-IsKeyed

abbrev submit : Text
submit = text "auth/Login#Submit"

submit_found : find one_file submit ≡ some (with_export login_component (text "Submit"))
unfolding program
submit_found = refl

capitals_name : derived_name rel_of (text "/c") (text "/c/Foo.TSX") ≡ some (text "Foo.TSX")
unfolding program
capitals_name = refl
