-- ===== src/Registry/Walk.antt =====
-- Reload and NewRegistry of internal/registry.go: one walk over the folder. A Tree is what
-- filepath.WalkDir meets: entries in its order, each with its path and its base name.
use go_solid.Prelude.{
  Text, text, text_eq, Option, none, some, [], ◌&&◌, ◌||◌, not, Bool, false, GoMap, lookup, insert,
  has_prefix, text_comparable, if◌then◌else◌,
}
use go_solid.Paths.{to_lower, file_ext}
use go_solid.Component.{Component, new_component}
use go_solid.Registry.{
  Registry, Error, duplicate, no_relative_path, unreadable, walk_failed, eligible,
  name_is_addressable, derived_name, rooted,
}

mutual
  pub data Tree : Type 0 where
    file : Text → Tree
    -- an entry that WalkDir reports with an error
    broken : Text → Tree
    -- the path, the base name, the entries
    folder : Text → Text → Forest → Tree

  pub data Forest : Type 0 where
    no_more : Forest
    entry : Tree → Forest → Forest

pub data Walked : Type 0 where
  stopped : Error → Walked
  found : GoMap Text Component → Walked

-- `base == "node_modules" || (strings.HasPrefix(base, ".") && path != root)`: shared.SkipDir, and
-- the same test in Reload.
unfoldable pub skip_dir : Text → Text → Text → Bool
skip_dir base path root =
    text_eq base (text "node_modules") || has_prefix base (text ".") && not (text_eq path root)

infixl 5 ◌>>=◌
abbrev pub ◌>>=◌ : Walked → (GoMap Text Component → Walked) → Walked
stopped e >>= f = stopped e
found m >>= f = f m

module _ (rel : Text → Text → Option Text) (root : Text) where
  -- The callback on a file.
  unfoldable pub visit_file : Text → GoMap Text Component → Walked
  visit_file path m = if not (eligible path) then found m else elim (derived_name rel root path) [
    | none ↦ stopped (no_relative_path path)
    | some name ↦ elim (name_is_addressable name path) [
      | some e ↦ stopped e
      | none ↦ elim (lookup name m) [
        | some existing ↦ stopped (duplicate name existing.path path)
        | none ↦ found (insert name (new_component name path (to_lower (file_ext path))) m)
      ]
    ]
  ]

  unfoldable mutual
    unfolding visit_file

    pub walk_tree : Tree → GoMap Text Component → Walked
    walk_tree (file path) m = visit_file path m
    walk_tree (broken path) m = stopped (unreadable path)
    walk_tree (folder path base entries) m =
        let inside = walk_forest entries m in if skip_dir base path root then found m else inside

    pub walk_forest : Forest → GoMap Text Component → Walked
    walk_forest no_more m = found m
    walk_forest (entry t ts) m = walk_tree t m >>= walk_forest ts

-- A failed walk leaves the registry as it was.
unfoldable pub settle : Registry → Walked → Registry × Option Error
settle this (stopped e) = (this, some (walk_failed this.root e))
settle this (found m) = (record this { components = m }, none)

unfoldable pub reload : (Text → Text → Option Text) → Registry → Tree → Registry × Option Error
unfolding settle
reload rel this tree =
    if not (rooted this) then (this, none) else settle this (walk_tree rel this.root tree [])

-- NewRegistry, for the absolute path of its root
unfoldable pub new_registry : (Text → Text → Option Text) → Text → Tree → Registry × Option Error
new_registry rel root tree =
    reload rel (record { root = root; components = []; reactive = false }) tree
