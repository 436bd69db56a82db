-- ===== src/Registry/Selecting.antt =====
-- Lookup of internal/registry.go, and the names that it derives from paths.
use go_solid.Prelude.{
  Text, text_eq_iff, text_comparable, Option, some, [], ◌∷◌, ◌++◌, true, false, lookup, has_suffix,
  trim_suffix, if◌then◌else◌, ◌≡◌, refl, inl, inr, Option-cases, arith,
}
use go_solid.Meta.{split_selector, join_selector}
use go_solid.Meta.Selector.{split_absent}
use go_solid.Paths.{to_lower, file_ext}
use go_solid.Component.{Component, mount_root_id_for, new_component, with_export}
use go_solid.Registry.{Registry, find, derived_name}
use go_solid.Registry.Keyed.{IsKeyed}
use go_solid.Registry.Binding.{file_of}

-- In a keyed registry, what a selector finds has the file that its file part is bound to, the export
-- that it names, the selector's canonical form for a name, and the mount id of that name.
pub find_selects :
    (r : Registry) (selector file export : Text) (c : Component)
    → IsKeyed r.components
    → split_selector selector ≡ (file, export)
    → find r selector ≡ some c
    → (file_of r file ≡ some c.path)
      × (c.export ≡ export)
      × (c.name ≡ join_selector file export)
      × (c.mount_root_id ≡ mount_root_id_for (join_selector file export))
unfolding find with_export new_component join_selector
find_selects r selector file export c keyed s h = elim (Option-cases (lookup file r.components)) [
  | inl e ↦ ground (arith, e)
  | inr (k, e) ↦
      let (same, clean) = keyed file k e in
      ground (arith, e, same, split_absent file clean, text_eq_iff export [])
]

trim_suffix-append :
    (s suffix : Text) → has_suffix s suffix ≡ true → trim_suffix s suffix ++ suffix ≡ s
unfolding has_suffix trim_suffix
trim_suffix-append [] suffix h = ground (arith, text_eq_iff [] suffix)
trim_suffix-append (c ∷ s) suffix h =
    ground (arith, text_eq_iff (c ∷ s) suffix, trim_suffix-append s suffix)

trim_suffix_absent : (s suffix : Text) → has_suffix s suffix ≡ false → trim_suffix s suffix ≡ s
unfolding has_suffix trim_suffix
trim_suffix_absent [] suffix h = refl
trim_suffix_absent (c ∷ s) suffix h = ground (arith, trim_suffix_absent s suffix)

-- The derived name is the relative path without its extension where that path ends in the extension
-- as ToLower writes it; otherwise the name is the whole relative path, extension included.
pub derived_name-ext :
    (rel : Text → Text → Option Text) (root path relative name : Text)
    → rel root path ≡ some relative
    → derived_name rel root path ≡ some name
    → let ext = to_lower (file_ext path) in
      (if has_suffix relative ext then name ++ ext else name) ≡ relative
unfolding derived_name
derived_name-ext rel root path relative name r h =
    let ext = to_lower (file_ext path) in
    ground (arith, trim_suffix-append relative ext, trim_suffix_absent relative ext)
