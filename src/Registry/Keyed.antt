-- ===== src/Registry/Keyed.antt =====
-- Every method of internal/registry.go keeps the registry keyed: a component is filed under its own
-- name, which a selector can reach, and a bound name is not bound to another file.
use go_solid.Prelude.{
  Text, text_eq, text_eq_iff, text_comparable, Option, some, List, [], ◌∷◌, false, GoMap, lookup,
  insert, delete, lookup-insert, lookup-delete, lookup-nil, contains_char, is_some, ◌≡◌, inl, inr,
  Option-cases, Bool-cases, arith,
}
use go_solid.Meta.{export_selector}
use go_solid.Component.{Component, new_component}
use go_solid.Registry.{
  Registry, eligible, name_is_addressable, bind_component, adopt, derived_name, add_file,
  remove_file, rooted,
}
use go_solid.Registry.Walk.{
  Tree, Forest, file, broken, folder, no_more, entry, Walked, stopped, found, ◌>>=◌, skip_dir,
  visit_file, walk_tree, walk_forest, settle, reload,
}
use go_solid.Registry.Reactive.{
  created, deleted, mutated, on_event, Call, adopts, reloads, closes, meets, step, run,
}

abbrev pub IsKeyed : GoMap Text Component → Type 0
IsKeyed m =
    (name : Text) (c : Component)
    → lookup name m ≡ some c
    → (c ≡ new_component name c.path c.ext) × (contains_char export_selector name ≡ false)

IsKeyed-nil : IsKeyed []
IsKeyed-nil name c h = ground (arith, lookup-nil {V = Component} name)

IsKeyed-insert :
    (m : GoMap Text Component) (name path ext : Text)
    → contains_char export_selector name ≡ false
    → IsKeyed m
    → IsKeyed (insert name (new_component name path ext) m)
unfolding new_component
IsKeyed-insert m name path ext clean keyed n c h =
    ground
      (arith, keyed n c, lookup-insert name n (new_component name path ext) m, text_eq_iff name n)

IsKeyed-delete : (m : GoMap Text Component) (name : Text) → IsKeyed m → IsKeyed (delete name m)
IsKeyed-delete m name keyed n c h = ground (arith, keyed n c, lookup-delete name n m)

bind-IsKeyed :
    (r : Registry) (name path ext : Text)
    → contains_char export_selector name ≡ false
    → IsKeyed r.components
    → IsKeyed (bind_component r name path ext).0.components
unfolding bind_component
bind-IsKeyed r name path ext clean keyed = elim (Option-cases (lookup name r.components)) [
  | inl e ↦ rw (e, bind_component) (IsKeyed-insert r.components name path ext clean keyed)
  | inr (c, e) ↦ elim (Bool-cases (text_eq c.path path)) [
    | inl same ↦
        rw (e, bind_component) (rw same (IsKeyed-insert r.components name path ext clean keyed))
    | inr other ↦ rw (e, bind_component) (rw other keyed)
  ]
]

adopt-IsKeyed :
    (r : Registry) (name path ext : Text)
    → IsKeyed r.components
    → IsKeyed (adopt r name path ext).0.components
unfolding adopt name_is_addressable
adopt-IsKeyed r name path ext keyed = elim (Bool-cases (contains_char export_selector name)) [
  | inl bad ↦ rw (bad, adopt) keyed
  | inr clean ↦ rw (clean, adopt) (bind-IsKeyed r name path ext clean keyed)
]

module _ (rel : Text → Text → Option Text) where
  add_file-IsKeyed :
      (r : Registry) (path : Text)
      → IsKeyed r.components
      → IsKeyed (add_file rel r path).0.components
  unfolding add_file
  add_file-IsKeyed r path keyed = elim (Bool-cases (eligible path)) [
    | inr out ↦ rw (out, add_file) keyed
    | inl in_ ↦ elim (Option-cases (derived_name rel r.root path)) [
      | inl e ↦ rw (in_, add_file) (rw e keyed)
      | inr (name, e) ↦ elim (Bool-cases (contains_char export_selector name)) [
        | inl bad ↦ rw (in_, add_file) (rw e (rw bad keyed))
        | inr clean ↦ rw (in_, add_file) (rw e (rw clean (bind-IsKeyed r name path _ clean keyed)))
      ]
    ]
  ]

  remove_file-IsKeyed :
      (r : Registry) (path : Text)
      → IsKeyed r.components
      → IsKeyed (remove_file rel r path).0.components
  unfolding remove_file
  remove_file-IsKeyed r path keyed = elim (Bool-cases (eligible path)) [
    | inr out ↦ rw (out, remove_file) keyed
    | inl in_ ↦ elim (Option-cases (derived_name rel r.root path)) [
      | inl e ↦ rw (in_, remove_file) (rw e keyed)
      | inr (name, e) ↦ elim (Bool-cases (is_some (lookup name r.components))) [
        | inl there ↦
            rw (in_, remove_file) (rw e (rw there (IsKeyed-delete r.components name keyed)))
        | inr gone ↦ rw (in_, remove_file) (rw e (rw gone keyed))
      ]
    ]
  ]

  -- A walk that starts from a keyed map and is not stopped ends in a keyed map.
  abbrev WalkedKeyed : Walked → Type 0
  WalkedKeyed (stopped e) = Unit
  WalkedKeyed (found m) = IsKeyed m

  visit_file-IsKeyed :
      (root path : Text) (m : GoMap Text Component)
      → IsKeyed m
      → WalkedKeyed (visit_file rel root path m)
  unfolding visit_file name_is_addressable
  visit_file-IsKeyed root path m keyed = elim (Bool-cases (eligible path)) [
    | inr out ↦ rw (out, visit_file) keyed
    | inl in_ ↦ elim (Option-cases (derived_name rel root path)) [
      | inl e ↦ rw (in_, visit_file) (rw e tt)
      | inr (name, e) ↦ elim (Bool-cases (contains_char export_selector name)) [
        | inl bad ↦ rw (in_, visit_file) (rw e (rw bad tt))
        | inr clean ↦ elim (Option-cases (lookup name m)) [
          | inr (c, dup) ↦ rw (in_, visit_file) (rw e (rw clean (rw dup tt)))
          | inl fresh ↦
              rw (in_, visit_file)
                (rw e (rw clean (rw fresh (IsKeyed-insert m name path _ clean keyed))))
        ]
      ]
    ]
  ]

  after_tree :
      (root : Text) (w : Walked) (f : GoMap Text Component → Walked)
      → WalkedKeyed w
      → ((m : GoMap Text Component) → IsKeyed m → WalkedKeyed (f m))
      → WalkedKeyed (w >>= f)
  after_tree root (stopped e) f keyed next = tt
  after_tree root (found m) f keyed next = next m keyed

  mutual
    unfolding walk_tree walk_forest

    walk_tree-IsKeyed :
        (root : Text) (t : Tree) (m : GoMap Text Component)
        → IsKeyed m
        → WalkedKeyed (walk_tree rel root t m)
    walk_tree-IsKeyed root (file path) m keyed = visit_file-IsKeyed root path m keyed
    walk_tree-IsKeyed root (broken path) m keyed = tt
    walk_tree-IsKeyed root (folder path base ts) m keyed =
        elim (Bool-cases (skip_dir base path root)) [
          | inl skip ↦ rw skip keyed
          | inr enter ↦ rw enter (walk_forest-IsKeyed root ts m keyed)
        ]

    walk_forest-IsKeyed :
        (root : Text) (ts : Forest) (m : GoMap Text Component)
        → IsKeyed m
        → WalkedKeyed (walk_forest rel root ts m)
    walk_forest-IsKeyed root no_more m keyed = keyed
    walk_forest-IsKeyed root (entry t ts) m keyed =
        after_tree root (walk_tree rel root t m) (walk_forest rel root ts)
          (walk_tree-IsKeyed root t m keyed) (walk_forest-IsKeyed root ts)

  settle-IsKeyed :
      (r : Registry) (w : Walked)
      → IsKeyed r.components
      → WalkedKeyed w
      → IsKeyed (settle r w).0.components
  unfolding settle
  settle-IsKeyed r (stopped e) keyed walked = keyed
  settle-IsKeyed r (found m) keyed walked = walked

  reload-IsKeyed :
      (r : Registry) (tree : Tree) → IsKeyed r.components → IsKeyed (reload rel r tree).0.components
  unfolding reload
  reload-IsKeyed r tree keyed = elim (Bool-cases (rooted r)) [
    | inr rootless ↦ rw (rootless, reload) keyed
    | inl has ↦
        rw (has, reload) (settle-IsKeyed r _ keyed (walk_tree-IsKeyed r.root tree [] IsKeyed-nil))
  ]

  -- Whatever calls and file events it meets, a registry stays keyed: each name is bound to the
  -- component that NewComponent makes of that name and its file, and no name holds the character
  -- that selects an export.
  pub run-IsKeyed :
      (r : Registry) (calls : List Call)
      → IsKeyed r.components
      → IsKeyed (run rel r calls).components
  unfolding run step on_event
  run-IsKeyed r [] keyed = keyed
  run-IsKeyed r (adopts name path ext ∷ calls) keyed =
      run-IsKeyed (step rel r (adopts name path ext)) calls (adopt-IsKeyed r name path ext keyed)
  run-IsKeyed r (reloads tree ∷ calls) keyed =
      run-IsKeyed (step rel r (reloads tree)) calls (reload-IsKeyed r tree keyed)
  run-IsKeyed r (closes ∷ calls) keyed = run-IsKeyed (step rel r closes) calls keyed
  run-IsKeyed r (meets (created path) ∷ calls) keyed =
      run-IsKeyed (step rel r (meets (created path))) calls (add_file-IsKeyed r path keyed)
  run-IsKeyed r (meets (deleted path) ∷ calls) keyed =
      run-IsKeyed (step rel r (meets (deleted path))) calls (remove_file-IsKeyed r path keyed)
  run-IsKeyed r (meets (mutated path) ∷ calls) keyed =
      run-IsKeyed (step rel r (meets (mutated path))) calls keyed
