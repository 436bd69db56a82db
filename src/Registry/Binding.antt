-- ===== src/Registry/Binding.antt =====
-- What the methods of internal/registry.go do to the binding of a name, and what a selector finds.
use go_solid.Prelude.{
  Text, text_eq, text_eq_iff, text_comparable, Option, none, some, true, lookup, insert,
  lookup-insert, lookup-delete, if◌then◌else◌, ◌≡◌, inl, inr, Option-cases, arith,
}
use go_solid.Paths.{to_lower, file_ext}
use go_solid.Component.{new_component}
use go_solid.Registry.{
  Registry, Error, added, failed, eligible, name_is_addressable, bind_component, adopt,
  derived_name, name_for_file, add_file, remove_file,
}

-- The file that a name is bound to.
abbrev pub file_of : Registry → Text → Option Text
file_of r name = elim (lookup name r.components) [ none ↦ none | some c ↦ some c.path ]

abbrev Binds : Registry → Text → Text → Type 0
Binds r name path = file_of r name ≡ some path

bind-file_of :
    (r : Registry) (n name path ext p : Text)
    → Binds r n p
    → Binds (bind_component r name path ext).0 n p
unfolding bind_component new_component
bind-file_of r n name path ext p h = ground (
  arith,
  lookup-insert name n (new_component name path ext) r.components,
  text_eq_iff name n,
  text_eq_iff p path,
)

-- Adopt does not take a bound name from its file: the name keeps it, whatever is adopted.
pub adopt-file_of :
    (r : Registry) (n name path ext p : Text) → Binds r n p → Binds (adopt r name path ext).0 n p
unfolding adopt
adopt-file_of r n name path ext p h = elim (Option-cases (name_is_addressable name path)) [
  | inl e ↦ rw (e, adopt) (bind-file_of r n name path ext p h)
  | inr (e, bad) ↦ rw (bad, adopt) h
]

module _ (rel : Text → Text → Option Text) where
  -- Nor does AddFile.
  pub add_file-file_of :
      (r : Registry) (n path p : Text) → Binds r n p → Binds (add_file rel r path).0 n p
  unfolding add_file
  add_file-file_of r n path p h = elim (Option-cases (derived_name rel r.root path)) [
    | inl e ↦ ground (arith, e)
    | inr (name, e) ↦ ground (arith, e, bind-file_of r n name path (to_lower (file_ext path)) p h)
  ]

  abbrev bound : Registry → Text → Text → Registry
  bound r name path =
      let c = new_component name path (to_lower (file_ext path)) in
      record r { components = insert name c r.components }

  abbrev IsAddition : Registry → Registry → Text → Text → Type 0
  IsAddition r r' path name =
      (eligible path ≡ true) × (derived_name rel r.root path ≡ some name) × (r' ≡ bound r name path)

  add_file-IsAddition :
      (r r' : Registry) (path name : Text)
      → add_file rel r path ≡ (r', added name)
      → IsAddition r r' path name
  unfolding add_file bind_component
  add_file-IsAddition r r' path name h = elim (Option-cases (derived_name rel r.root path)) [
    | inl e ↦ ground (arith, e)
    | inr (n, e) ↦ ground (arith, e)
  ]

  -- A file that AddFile reports as added under a name is bound to it: the name leads to the file,
  -- and the file back to the name.
  pub add_file-added :
      (r r' : Registry) (path name : Text)
      → add_file rel r path ≡ (r', added name)
      → Binds r' name path × (name_for_file rel r' path ≡ some name)
  unfolding name_for_file new_component
  add_file-added r r' path name h =
      let (ok, named, same) = add_file-IsAddition r r' path name h in
      let c = new_component name path (to_lower (file_ext path)) in
      ground (arith, named, same, lookup-insert name name c r.components, text_eq_iff name name)

  -- An AddFile that fails or skips the file changes nothing.
  pub add_file_unchanged :
      (r r' : Registry) (path : Text) (e : Error) → add_file rel r path ≡ (r', failed e) → r' ≡ r
  unfolding add_file bind_component
  add_file_unchanged r r' path e h = ground arith

  -- RemoveFile undoes AddFile: the name that the file was added under is free again, and every other
  -- name leads where it led.
  pub remove_file-add_file :
      (r r' : Registry) (path name : Text)
      → add_file rel r path ≡ (r', added name)
      → (remove_file rel r' path).1 ≡ some name
        × ((n : Text)
            → file_of (remove_file rel r' path).0 n
              ≡ (if text_eq name n then none else file_of r n))
  unfolding remove_file new_component
  remove_file-add_file r r' path name h =
      let (ok, named, same) = add_file-IsAddition r r' path name h in
      let c = new_component name path (to_lower (file_ext path)) in
      let self = lookup-insert name name c r.components in
      (
        ground (arith, ok, named, same, self, text_eq_iff name name),
        λ n. ground (
          arith,
          ok,
          named,
          same,
          self,
          lookup-insert name n c r.components,
          lookup-delete name n (insert name c r.components),
          text_eq_iff name name,
        ),
      )
