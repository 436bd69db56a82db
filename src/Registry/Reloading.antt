-- ===== src/Registry/Reloading.antt =====
-- Reload of internal/registry.go against a description of the folder: the files that it shows.
use go_solid.Prelude.{
  Text, text_eq, text_eq_iff, text_comparable, Option, none, some, List, [], ◌∷◌, ◌++◌, true, GoMap,
  lookup, lookup-insert, lookup-nil, contains, if◌then◌else◌, ◌≡◌, ◌↔◌, refl, sym, subst, ◌∙◌, ◌⊎◌,
  inl, inr, Option-cases, Bool-cases, arith,
}
use go_solid.Paths.{to_lower, file_ext}
use go_solid.Component.{Component, new_component}
use go_solid.Registry.{Registry, unreadable, eligible, name_is_addressable, derived_name, rooted}
use go_solid.Registry.Walk.{
  Tree, Forest, file, broken, folder, no_more, entry, Walked, stopped, found, ◌>>=◌, skip_dir,
  visit_file, walk_tree, walk_forest, settle, reload,
}
use go_solid.Registry.Binding.{file_of}

pub data Item : Type 0 where
  seen unread : Text → Item

-- What the folder shows, in order: all but what stands below a skipped directory.
unfoldable mutual
  pub shown : Text → Tree → List Item
  shown root (file path) = seen path ∷ []
  shown root (broken path) = unread path ∷ []
  shown root (folder path base ts) =
      let inside = shown_forest root ts in if skip_dir base path root then [] else inside

  pub shown_forest : Text → Forest → List Item
  shown_forest root no_more = []
  shown_forest root (entry t ts) = shown root t ++ shown_forest root ts

unfoldable pub paths : List Item → List Text
paths [] = []
paths (seen path ∷ items) = path ∷ paths items
paths (unread path ∷ items) = paths items

-- The files that the folder shows.
unfoldable pub shown_files : Text → Tree → List Text
unfolding shown paths
shown_files root tree = paths (shown root tree)

-- The file that a map binds a name to.
abbrev file_in : GoMap Text Component → Text → Option Text
file_in m name = elim (lookup name m) [ none ↦ none | some c ↦ some c.path ]

module _ (rel : Text → Text → Option Text) (root : Text) where
  visit : Item → GoMap Text Component → Walked
  visit (seen path) m = visit_file rel root path m
  visit (unread path) m = stopped (unreadable path)

  visit_all : List Item → GoMap Text Component → Walked
  visit_all [] m = found m
  visit_all (i ∷ items) m = visit i m >>= visit_all items

  bind-visit_all :
      (w : Walked) (items rest : List Item)
      → ((m : GoMap Text Component)
          → visit_all (items ++ rest) m ≡ (visit_all items m >>= visit_all rest))
      → (w >>= visit_all (items ++ rest)) ≡ ((w >>= visit_all items) >>= visit_all rest)
  bind-visit_all (stopped e) items rest h = refl
  bind-visit_all (found m) items rest h = h m

  visit_all-append :
      (items rest : List Item) (m : GoMap Text Component)
      → visit_all (items ++ rest) m ≡ (visit_all items m >>= visit_all rest)
  unfolding visit_all
  visit_all-append [] rest m = refl
  visit_all-append (i ∷ items) rest m =
      bind-visit_all (visit i m) items rest (visit_all-append items rest)

  bind-found : (w : Walked) → w ≡ (w >>= found)
  bind-found (stopped e) = refl
  bind-found (found m) = refl

  bind-eq :
      (w w' : Walked) (f g : GoMap Text Component → Walked)
      → w ≡ w'
      → ((m : GoMap Text Component) → f m ≡ g m)
      → (w >>= f) ≡ (w' >>= g)
  bind-eq w w' f g e h = subst (λ v. (w >>= f) ≡ (v >>= g)) e (same w)
    where
      same : (v : Walked) → (v >>= f) ≡ (v >>= g)
      same (stopped e) = refl
      same (found m) = h m

  mutual
    unfolding walk_tree walk_forest shown shown_forest visit_all visit

    walk_tree-visit_all :
        (t : Tree) (m : GoMap Text Component) → walk_tree rel root t m ≡ visit_all (shown root t) m
    walk_tree-visit_all (file path) m = bind-found (visit_file rel root path m)
    walk_tree-visit_all (broken path) m = refl
    walk_tree-visit_all (folder path base ts) m = elim (Bool-cases (skip_dir base path root)) [
      | inl skip ↦ rw skip
      | inr enter ↦ rw enter (walk_forest-visit_all ts m)
    ]

    walk_forest-visit_all :
        (ts : Forest) (m : GoMap Text Component)
        → walk_forest rel root ts m ≡ visit_all (shown_forest root ts) m
    walk_forest-visit_all no_more m = refl
    walk_forest-visit_all (entry t ts) m =
        bind-eq (walk_tree rel root t m) _ _ _ (walk_tree-visit_all t m) (walk_forest-visit_all ts)
        ∙ sym (visit_all-append (shown root t) (shown_forest root ts) m)

  -- A file that the walk accepts: eligible, with the name that it is filed under.
  abbrev Yields : Text → Text → Type 0
  Yields name path = (eligible path ≡ true) × (derived_name rel root path ≡ some name)

  abbrev Ends : Walked → GoMap Text Component → Type 0
  Ends w m = w ≡ found m

  -- The callback on an accepted file binds its name, and leaves the others.
  visit_file_sound :
      (path : Text) (m m' : GoMap Text Component) (n p : Text)
      → Ends (visit_file rel root path m) m'
      → file_in m' n ≡ some p
      → (file_in m n ≡ some p) ⊎ ((path ≡ p) × Yields n p)
  unfolding visit_file name_is_addressable new_component
  visit_file_sound path m m' n p h b = elim (Option-cases (derived_name rel root path)) [
    | inl e ↦ ground (arith, e)
    | inr (name, e) ↦
        let c = new_component name path (to_lower (file_ext path)) in
        ground (arith, e, lookup-insert name n c m, text_eq_iff name n)
  ]

  visit_file-keeps :
      (path : Text) (m m' : GoMap Text Component) (n p : Text)
      → Ends (visit_file rel root path m) m'
      → file_in m n ≡ some p
      → file_in m' n ≡ some p
  unfolding visit_file name_is_addressable new_component
  visit_file-keeps path m m' n p h b = elim (Option-cases (derived_name rel root path)) [
    | inl e ↦ ground (arith, e)
    | inr (name, e) ↦
        let c = new_component name path (to_lower (file_ext path)) in
        ground (arith, e, lookup-insert name n c m, text_eq_iff name n)
  ]

  visit_file-binds :
      (path : Text) (m m' : GoMap Text Component) (n : Text)
      → Ends (visit_file rel root path m) m'
      → Yields n path
      → file_in m' n ≡ some path
  unfolding visit_file name_is_addressable new_component
  visit_file-binds path m m' n h y =
      let c = new_component n path (to_lower (file_ext path)) in
      ground (arith, lookup-insert n n c m, text_eq_iff n n)

  bind-Ends :
      (w : Walked) (f : GoMap Text Component → Walked) (m' : GoMap Text Component)
      → Ends (w >>= f) m'
      → (m : GoMap Text Component) × Ends w m × Ends (f m) m'
  bind-Ends (stopped e) f m' h = cc
  bind-Ends (found m) f m' h = (m, refl, h)

  visit_all_sound :
      (items : List Item) (m m' : GoMap Text Component) (n p : Text)
      → Ends (visit_all items m) m'
      → file_in m' n ≡ some p
      → (file_in m n ≡ some p) ⊎ ((contains p (paths items) ≡ true) × Yields n p)
  unfolding visit_all visit paths
  visit_all_sound [] m m' n p h b = ground (arith)
  visit_all_sound (unread path ∷ items) m m' n p h b = cc
  visit_all_sound (seen path ∷ items) m m' n p h b =
      let (m1, first, rest) = bind-Ends (visit_file rel root path m) (visit_all items) m' h in
      ground (
        arith,
        visit_all_sound items m1 m' n p rest b,
        visit_file_sound path m m1 n p first,
        text_eq_iff p path,
      )

  visit_all-keeps :
      (items : List Item) (m m' : GoMap Text Component) (n p : Text)
      → Ends (visit_all items m) m'
      → file_in m n ≡ some p
      → file_in m' n ≡ some p
  unfolding visit_all visit
  visit_all-keeps [] m m' n p h b = ground arith
  visit_all-keeps (unread path ∷ items) m m' n p h b = cc
  visit_all-keeps (seen path ∷ items) m m' n p h b =
      let (m1, first, rest) = bind-Ends (visit_file rel root path m) (visit_all items) m' h in
      visit_all-keeps items m1 m' n p rest (visit_file-keeps path m m1 n p first b)

  visit_all_complete :
      (items : List Item) (m m' : GoMap Text Component) (n p : Text)
      → Ends (visit_all items m) m'
      → contains p (paths items) ≡ true
      → Yields n p
      → file_in m' n ≡ some p
  unfolding visit_all visit paths
  visit_all_complete [] m m' n p h c y = cc
  visit_all_complete (unread path ∷ items) m m' n p h c y = cc
  visit_all_complete (seen path ∷ items) m m' n p h c y =
      let (m1, first, rest) = bind-Ends (visit_file rel root path m) (visit_all items) m' h in
      elim (Bool-cases (text_eq p path)) [
        | inl same ↦
            let e = (text_eq_iff p path).0 same in
            visit_all-keeps items m1 m' n p rest (
              subst (λ q. file_in m1 n ≡ some q) (sym e)
                (visit_file-binds path m m1 n first (subst (Yields n) e y)))
        | inr other ↦ visit_all_complete items m1 m' n p rest (ground arith) y
      ]

  walk-shown :
      (tree : Tree) (m' : GoMap Text Component) (n p : Text)
      → Ends (walk_tree rel root tree []) m'
      → (file_in m' n ≡ some p) ↔ (
          (contains p (shown_files root tree) ≡ true)
          × (eligible p ≡ true)
          × (derived_name rel root p ≡ some n))
  unfolding shown_files
  walk-shown tree m' n p h =
      let ends = sym (walk_tree-visit_all tree []) ∙ h in
      (
        λ b. ground (
          arith,
          visit_all_sound (shown root tree) [] m' n p ends b,
          lookup-nil {V = Component} n,
        ),
        λ y. visit_all_complete (shown root tree) [] m' n p ends y.0 (y.1, y.2),
      )

settle-found :
    (r r' : Registry) (w : Walked)
    → settle r w ≡ (r', none)
    → (m : GoMap Text Component) × (w ≡ found m) × (r'.components ≡ m)
unfolding settle
settle-found r r' (stopped e) h = cc
settle-found r r' (found m) h = (m, refl, ground arith)

-- A Reload that succeeds leaves a registry in which a name is bound to a file exactly if the folder
-- shows that file, it is eligible, and the name is the one derived from its path.
pub reload-shown_files :
    (rel : Text → Text → Option Text) (r r' : Registry) (tree : Tree) (n p : Text)
    → rooted r ≡ true
    → reload rel r tree ≡ (r', none)
    → (file_of r' n ≡ some p) ↔ (
        (contains p (shown_files r.root tree) ≡ true)
        × (eligible p ≡ true)
        × (derived_name rel r.root p ≡ some n))
unfolding reload
reload-shown_files rel r r' tree n p has h =
    let (m, ends, same) = settle-found r r' (walk_tree rel r.root tree []) (rw has at h) in
    rw same (walk-shown rel r.root tree m n p ends)
