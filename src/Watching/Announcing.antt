-- ===== src/Watching/Announcing.antt =====
-- internal/watching/directoryWatcher.go: what a walk that succeeds watches and announces.
use go_solid.Prelude.{
  Text, Option, none, some, List, [], ◌∷◌, ◌++◌, append_assoc, append-nil, Bool, true, false,
  if_true, if◌then◌else◌, ◌≡◌, refl, sym, subst, ◌∙◌, ap, arith, inl, inr, Option-cases,
}
use go_solid.Paths.{base}
use go_solid.Registry.Walk.{Tree, Forest, file, broken, folder, no_more, entry, skip_dir}
use go_solid.Registry.Reloading.{Item, seen, unread, shown, shown_forest, paths, shown_files}
use go_solid.Watching.{
  Event, Config, Watching, report, created_event, announce_creation, watch_then, and_then, add_tree,
  add_forest, report_walk, handle,
}

paths-append : (xs ys : List Item) → paths (xs ++ ys) ≡ paths xs ++ paths ys
unfolding paths
paths-append [] ys = refl
paths-append (seen p ∷ xs) ys = ap (λ ps. p ∷ ps) (paths-append xs ys)
paths-append (unread p ∷ xs) ys = paths-append xs ys

-- The directories of a tree, less those below a skipped one.
mutual
  dirs_of : Text → Tree → List Text
  dirs_of root (file path) = []
  dirs_of root (broken path) = []
  dirs_of root (folder path name ts) =
      let inside = dirs_of_forest root ts in if skip_dir name path root then [] else path ∷ inside

  dirs_of_forest : Text → Forest → List Text
  dirs_of_forest root no_more = []
  dirs_of_forest root (entry t ts) = dirs_of root t ++ dirs_of_forest root ts

pub shown_dirs : Text → Tree → List Text
unfolding dirs_of
shown_dirs root tree = dirs_of root tree

module _ {S T : Type 0} (add : Text → Option Text) (unread_at : Text → Text)
    (cfg : Config S T) where
  -- The state after the creation of each file was announced, with the errors that the callback returned
  abbrev pub announced : List Text → S → S
  announced [] s = s
  announced (path ∷ ps) s = announced ps (
      report add unread_at cfg
        (cfg.creation path (cfg.derive (created_event add unread_at cfg path)) s))

  announced-append :
      (xs ys : List Text) (s : S) → announced (xs ++ ys) s ≡ announced ys (announced xs s)
  announced-append [] ys s = refl
  announced-append (x ∷ xs) ys s = announced-append xs ys _

  -- What a walk with announcements has done
  abbrev Walked : List Text → List Text → Watching S → Watching S → Type 0
  Walked files dirs w w' = (w'.state ≡ announced files w.state) × (w'.watched ≡ w.watched ++ dirs)

  Walked-append :
      (files files' dirs dirs' : List Text) (w w' w'' : Watching S)
      → Walked files dirs w w'
      → Walked files' dirs' w' w''
      → Walked (files ++ files') (dirs ++ dirs') w w''
  Walked-append files files' dirs dirs' w w' w'' (f, d) (f', d') = (
    f' ∙ ap (announced files') f ∙ sym (announced-append files files' w.state),
    d' ∙ ap (λ ds. ds ++ dirs') d ∙ append_assoc w.watched dirs dirs',
  )

  and_then-none :
      (out : Watching S × Option Text) (next : Watching S → Watching S × Option Text)
      → (and_then add unread_at cfg out next).1 ≡ none
      → (out.1 ≡ none) × (and_then add unread_at cfg out next ≡ next out.0)
  and_then-none (w, some e) next h = absurd (ground arith)
  and_then-none (w, none) next h = (refl, refl)

  watch_then-none :
      (path : Text) (w : Watching S) (below : Watching S → Watching S × Option Text)
      → (watch_then add unread_at cfg path w below).1 ≡ none
      → watch_then add unread_at cfg path w below
        ≡ below (record w { watched = w.watched ++ path ∷ [] })
  watch_then-none path w below h = elim (Option-cases (add path)) [
    | inr (e, refused) ↦ absurd (ground (arith, refused))
    | inl fine ↦ rw (fine, watch_then) refl
  ]

  unless_skipped-Walked :
      (skip : Bool) (w : Watching S) (below : Watching S × Option Text) (items : List Item)
      (dirs : List Text)
      → (if skip then (w, none) else below).1 ≡ none
      → (below.1 ≡ none → Walked (paths items) dirs w below.0)
      → Walked
          (paths (if skip then [] else items))
          (if skip then [] else dirs)
          w
          (if skip then (w, none) else below).0
  unfolding paths
  unless_skipped-Walked true w below items dirs h k = (refl, sym (append-nil w.watched))
  unless_skipped-Walked false w below items dirs h k = k h

  -- The walk of a directory, from the walk of its entries
  watch_then-Walked :
      (path : Text) (files dirs : List Text) (w : Watching S)
      (below : Watching S → Watching S × Option Text)
      → ((w' : Watching S) → (below w').1 ≡ none → Walked files dirs w' (below w').0)
      → (watch_then add unread_at cfg path w below).1 ≡ none
      → Walked files (path ∷ dirs) w (watch_then add unread_at cfg path w below).0
  watch_then-Walked path files dirs w below k h =
      let w' = record w { watched = w.watched ++ path ∷ [] } in
      let run = watch_then-none path w below h in
      let (f, d) = k w' (ap (λ (out : Watching S × Option Text). out.1) (sym run) ∙ h) in
      (
        ap (λ (out : Watching S × Option Text). out.0.state) run ∙ f,
        ap (λ (out : Watching S × Option Text). out.0.watched) run
            ∙ d
            ∙ append_assoc w.watched (path ∷ []) dirs,
      )

  and_then-Walked :
      (files files' dirs dirs' : List Text) (w : Watching S) (out : Watching S × Option Text)
      (next : Watching S → Watching S × Option Text)
      → (out.1 ≡ none → Walked files dirs w out.0)
      → ((w' : Watching S) → (next w').1 ≡ none → Walked files' dirs' w' (next w').0)
      → (and_then add unread_at cfg out next).1 ≡ none
      → Walked (files ++ files') (dirs ++ dirs') w (and_then add unread_at cfg out next).0
  and_then-Walked files files' dirs dirs' w (w', some e) next k k' h = absurd (ground arith)
  and_then-Walked files files' dirs dirs' w (w', none) next k k' h =
      Walked-append files files' dirs dirs' w w' (next w').0 (k refl) (k' w' h)

  report_walk-none :
      (out : Watching S × Option Text) → out.1 ≡ none → report_walk add unread_at cfg out ≡ out.0
  report_walk-none (w, some e) h = absurd (ground arith)
  report_walk-none (w, none) h = refl

  mutual
    unfolding add_tree announce_creation shown paths dirs_of

    add_tree-Walked :
        (root : Text) (t : Tree) (w : Watching S)
        → (add_tree add unread_at cfg root true t w).1 ≡ none
        → Walked
            (paths (shown root t))
            (dirs_of root t)
            w
            (add_tree add unread_at cfg root true t w).0
    add_tree-Walked root (file path) w h = (refl, sym (append-nil w.watched))
    add_tree-Walked root (broken path) w h = absurd (ground arith)
    add_tree-Walked root (folder path name ts) w h =
        unless_skipped-Walked (skip_dir name path root) w
          (watch_then add unread_at cfg path w (add_forest add unread_at cfg root true ts))
          (shown_forest root ts) (path ∷ dirs_of_forest root ts) h
          (watch_then-Walked path (paths (shown_forest root ts)) (dirs_of_forest root ts) w
            (add_forest add unread_at cfg root true ts) (λ w' k. add_forest-Walked root ts w' k))

    add_forest-Walked :
        (root : Text) (ts : Forest) (w : Watching S)
        → (add_forest add unread_at cfg root true ts w).1 ≡ none
        → Walked
            (paths (shown_forest root ts))
            (dirs_of_forest root ts)
            w
            (add_forest add unread_at cfg root true ts w).0
    add_forest-Walked root no_more w h = (refl, sym (append-nil w.watched))
    add_forest-Walked root (entry t ts) w h =
        subst
          (λ files.
            Walked files (dirs_of root t ++ dirs_of_forest root ts) w
              (add_forest add unread_at cfg root true (entry t ts) w).0)
          (sym (paths-append (shown root t) (shown_forest root ts)))
          (and_then-Walked (paths (shown root t)) (paths (shown_forest root ts)) (dirs_of root t)
            (dirs_of_forest root ts) w (add_tree add unread_at cfg root true t w)
            (add_forest add unread_at cfg root true ts) (λ k. add_tree-Walked root t w k)
            (λ w' k. add_forest-Walked root ts w' k) h)

  -- Handling the creation of a directory whose walk reports no error, in a place that is not skipped: it and every
  -- directory below it that is not skipped are watched from then on, and the creation of every file that a
  -- Reload of that directory would see is announced once, in the order of the walk; nothing else changes.
  pub handle-announced :
      (root : Text) (e : Event) (tree : Tree) (w : Watching S)
      → e.create ≡ true
      → skip_dir (base e.name) e.name root ≡ false
      → (add_tree add unread_at cfg e.name true tree w).1 ≡ none
      → let after = handle add unread_at cfg root e (some tree) w in
        (after.state ≡ announced (shown_files e.name tree) w.state)
        × (after.watched ≡ w.watched ++ shown_dirs e.name tree)
  unfolding handle shown_files shown_dirs
  handle-announced root e tree w made outside fine =
      let run = add_tree add unread_at cfg e.name true tree w in
      let same : handle add unread_at cfg root e (some tree) w ≡ run.0 =
        if_true e.create _ _ made
        ∙ ap (λ (b : Bool). if b then w else report_walk add unread_at cfg run) outside
        ∙ report_walk-none run fine in
      let (s, d) = add_tree-Walked e.name tree w fine in
      (ap (λ (x : Watching S). x.state) same ∙ s, ap (λ (x : Watching S). x.watched) same ∙ d)
