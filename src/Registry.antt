-- ===== src/Registry.antt =====
-- internal/registry.go: the registry of components, kept from the files of a folder. The lock is
-- not modelled: each method is one step. `rel` is filepath.Rel, with none for its error.
pub mod Walk
pub mod Reactive
pub mod Keyed
pub mod Binding
pub mod Selecting
pub mod Reloading
mod Tests
use go_solid.Prelude.{
  ℕ, Text, text, text_eq, Option, none, some, List, [], ◌∷◌, ◌&&◌, ◌||◌, not, Bool, true, false,
  GoMap, lookup, insert, delete, keys, map, has_prefix, has_suffix, trim_suffix, contains_char,
  text_comparable, is_some, if◌then◌else◌,
}
use go_solid.Meta.{export_selector, split_selector}
use go_solid.Paths.{to_lower, file_ext}
use go_solid.Component.{Component, new_component, with_export}

pub record Registry : Type 0 where
  pub root : Text
  pub components : GoMap Text Component
  pub reactive : Bool

pub data Error : Type 0 where
  -- the name, then the path
  not_addressable : Text → Text → Error
  -- the name, then the two paths
  duplicate : Text → Text → Text → Error
  no_relative_path : Text → Error
  unreadable : Text → Error
  -- the fault of one file ends the walk over the folder
  walk_failed : Text → Error → Error
  no_tree : Error
  already_reactive : Error

-- registryExtensions
unfoldable pub registry_extension : Text → Bool
registry_extension ext =
    text_eq ext (text ".tsx")
    || text_eq ext (text ".jsx")
    || text_eq ext (text ".ts")
    || text_eq ext (text ".js")

-- DECLARATION_SUFFIX
abbrev pub declaration_suffix : Text
declaration_suffix = text ".d.ts"

unfoldable pub eligible : Text → Bool
eligible path =
    if has_suffix (to_lower path) declaration_suffix
    then false
    else registry_extension (to_lower (file_ext path))

unfoldable pub name_is_addressable : Text → Text → Option Error
name_is_addressable name path =
    if contains_char export_selector name then some (not_addressable name path) else none

-- NewRootlessRegistry
abbrev pub new_rootless_registry : Registry
new_rootless_registry = record { root = []; components = []; reactive = false }

abbrev pub rooted : Registry → Bool
rooted this = not (text_eq this.root [])

-- What AddFile returns: ("", false, nil), the name with true, or an error.
pub data Added : Type 0 where
  skipped : Added
  added : Text → Added
  failed : Error → Added

-- The guard and the write that AddFile and Adopt share.
unfoldable pub bind_component : Registry → Text → Text → Text → Registry × Option Error
bind_component this name path ext =
    let bound = record this {
      components = insert name (new_component name path ext) this.components;
    } in
    elim (lookup name this.components) [
      | none ↦ (bound, none)
      | some existing ↦
          if text_eq existing.path path
          then (bound, none)
          else (this, some (duplicate name existing.path path))
    ]

unfoldable pub adopt : Registry → Text → Text → Text → Registry × Option Error
unfolding bind_component name_is_addressable
adopt this name path ext = elim (name_is_addressable name path) [
  | some e ↦ (this, some e)
  | none ↦ bind_component this name path ext
]

-- Lookup
unfoldable pub find : Registry → Text → Option Component
find this component =
    let (file, export) = split_selector component in
    elim (lookup file this.components) [
      | none ↦ none
      | some c ↦ if text_eq export [] then some c else some (with_export c export)
    ]

-- Map, with the keys and components in the order of the model
unfoldable pub map_components {ℓ} : {T : Type ℓ} → Registry → (Text → Component → T) → List T
map_components this fn = map (λ e. fn e.0 e.1) this.components

-- The watcher goes away; the components stay.
abbrev pub close : Registry → Registry
close this = record this { reactive = false }

module _ (rel : Text → Text → Option Text) where
  -- The template name of a path under the root: strings.TrimSuffix(filepath.ToSlash(rel), ext).
  unfoldable pub derived_name : Text → Text → Option Text
  derived_name root path = elim (rel root path) [
    | none ↦ none
    | some r ↦ some (trim_suffix r (to_lower (file_ext path)))
  ]

  unfoldable pub qualified_name_for : Registry → Text → Option Text
  qualified_name_for this path = if not (eligible path) then none else derived_name this.root path

  unfoldable pub name_for_file : Registry → Text → Option Text
  unfolding qualified_name_for
  name_for_file this path = elim (qualified_name_for this path) [
    | none ↦ none
    | some name ↦ if is_some (lookup name this.components) then some name else none
  ]

  unfoldable pub add_file : Registry → Text → Registry × Added
  unfolding bind_component name_is_addressable
  add_file this path =
      if not (eligible path) then (this, skipped) else elim (derived_name this.root path) [
        | none ↦ (this, failed (no_relative_path path))
        | some name ↦ elim (name_is_addressable name path) [
          | some e ↦ (this, failed e)
          | none ↦
              let (after, fault) = bind_component this name path (to_lower (file_ext path)) in
              (after, elim fault [ none ↦ added name | some e ↦ failed e ])
        ]
      ]

  -- The name with true is `some`.
  unfoldable pub remove_file : Registry → Text → Registry × Option Text
  remove_file this path =
      if not (eligible path) then (this, none) else elim (derived_name this.root path) [
        | none ↦ (this, none)
        | some name ↦
            if is_some (lookup name this.components)
            then (record this { components = delete name this.components }, some name)
            else (this, none)
      ]
