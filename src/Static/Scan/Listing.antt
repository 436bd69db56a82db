-- ===== src/Static/Scan/Listing.antt =====
-- internal/static/manifest.go: a scan that succeeds finds the files that are not hidden, and no others.
use go_solid.Prelude.{
  ℕ, Text, text, text_eq, text_leb, text_comparable, Option, none, some, List, [], ◌∷◌, ◌++◌,
  append_assoc, append-nil, Bool, any, sort_by, map, lookup, lookup-insert, if◌then◌else◌, ◌≡◌,
  refl, sym, ◌∙◌, ap, arith, inl, inr, Bool-cases, Option-cases,
}
use go_solid.Sources.{Result, ok, failed}
use go_solid.Static.Keys.{directory, claim, sanitize}
use go_solid.Static.Config.{
  StaticConfig, effective_mount_path, effective_ignore, effective_inline_limit,
}
use go_solid.Static.Manifest.{Asset, Dir, Manifest}
use go_solid.Static.Scan.{
  Folder, unreadable, readable, Nodes, no_nodes, node, Node, file_node, dir_node, Scanned, done,
  stopped, ◌>>=◌, Outside, Found, Scan, started, in_dir, child_rel, refuse, check_name, join_group,
  finish, scan_file, add_found, file_entries,
}
use go_solid.Static.Scan.Walk.{
  unless_skipped, walk_folder, walk_nodes, walk_node, matched, is_hidden, asset_of, shown_folder,
  shown_nodes, shown_node, no_files, manifest_from, build_manifest,
}

bind-done :
    {A B : Type 0} (m : Scanned A) (f : A → Scanned B) (b : B)
    → (m >>= f) ≡ done b
    → (a : A) × (m ≡ done a) × (f a ≡ done b)
bind-done (done a) f b h = (a, refl, h)
bind-done (stopped e) f b h = absurd (ground arith)

-- The assets, added one after the other
abbrev add_all : List Asset → Found → Found
add_all [] m = m
add_all (a ∷ assets) m = add_all assets (add_found m a)

add_all-append : (xs ys : List Asset) (m : Found) → add_all (xs ++ ys) m ≡ add_all ys (add_all xs m)
add_all-append [] ys m = refl
add_all-append (x ∷ xs) ys m = add_all-append xs ys (add_found m x)

done-eq : {A : Type 0} (a b : A) → done a ≡ done b → a ≡ b
done-eq a b h = ground arith

module _ (o : Outside) where
  -- Where the patterns are good as far as they are tried, the check says whether one matches.
  check_name-any :
      (mount : Text) (ignore : List Text) (limit : ℕ) (name : Text) (patterns : List Text)
      (skip : Bool)
      → check_name o name patterns ≡ done skip
      → skip ≡ any (matched o mount ignore limit name) patterns
  unfolding check_name
  check_name-any mount ignore limit name [] skip h = ground arith
  check_name-any mount ignore limit name (p ∷ patterns) skip h =
      elim (Option-cases (o.matches p name)) [
        | inl bad ↦ absurd (ground (arith, bad))
        | inr (yes_, e) ↦ ground (arith, e, check_name-any mount ignore limit name patterns skip)
      ]

module _ (o : Outside) (mount : Text) (ignore : List Text) (limit : ℕ) where
  -- A scan that has been found to add these assets
  abbrev Adds : Found → List Asset → Found → Type 0
  Adds m assets m' = m' ≡ add_all assets m

  unless_skipped-found :
      (name : Text) (s s' : Scan) (scanned : Scanned Scan) (assets : List Asset)
      → unless_skipped o mount ignore limit name s scanned ≡ done s'
      → (scanned ≡ done s' → Adds s.found assets s'.found)
      → Adds s.found (if is_hidden o mount ignore limit name then [] else assets) s'.found
  unless_skipped-found name s s' scanned assets h k =
      let (skip, checked, rest) = bind-done (check_name o name ignore) _ s' h in
      let same = check_name-any o mount ignore limit name ignore skip checked in
      elim (Bool-cases (is_hidden o mount ignore limit name)) [
        | inl hidden ↦ rw hidden (ground (arith, same, hidden))
        | inr shown ↦ rw shown (k (ground (arith, same, shown)))
      ]

  join_group-found :
      (s : Scan) (key : Text) (asset : Asset) (group : Option (List Asset))
      → (join_group s key asset group).found ≡ s.found
  join_group-found s key asset none = refl
  join_group-found s key asset (some assets) = refl

  scan_file-found :
      (s s' : Scan) (dir_path rel name : Text) (body : Result Text)
      → scan_file o mount limit s dir_path rel name body ≡ done s'
      → Adds s.found
          (asset_of o mount ignore limit (in_dir dir_path name) (child_rel rel name) body)
          s'.found
  unfolding scan_file
  scan_file-found s s' dir_path rel name (failed e) h = absurd (ground arith)
  scan_file-found s s' dir_path rel name (ok body) h =
      ap (λ (t : Scan). t.found) (sym (done-eq _ s' h)) ∙ join_group-found _ _ _ _

  finish-found :
      (rel : Text) (s : Scan) (out : Found × Dir) → finish o rel s ≡ done out → out.0 ≡ s.found
  unfolding finish
  finish-found rel s out h =
      let (files, listed, e) = bind-done (file_entries o s.order s.grouped s.claimed) _ out h in
      ap (λ (x : Found × Dir). x.0) (sym (done-eq _ out e))

  mutual
    unfolding walk_folder shown_folder

    walk_folder-found :
        (folder : Folder) (dir_path rel : Text) (m : Found) (out : Found × Dir)
        → walk_folder o mount ignore limit folder dir_path rel m ≡ done out
        → Adds m (shown_folder o mount ignore limit folder dir_path rel) out.0
    walk_folder-found (unreadable e) dir_path rel m out h = absurd (ground arith)
    walk_folder-found (readable nodes) dir_path rel m out h =
        let (s, walked, e) =
          bind-done (walk_nodes o mount ignore limit nodes dir_path rel (started m)) (finish o rel)
            out h in
        finish-found rel s out e ∙ walk_nodes-found nodes dir_path rel (started m) s walked

    walk_nodes-found :
        (nodes : Nodes) (dir_path rel : Text) (s s' : Scan)
        → walk_nodes o mount ignore limit nodes dir_path rel s ≡ done s'
        → Adds s.found (shown_nodes o mount ignore limit nodes dir_path rel) s'.found
    walk_nodes-found no_nodes dir_path rel s s' h =
        ap (λ (t : Scan). t.found) (sym (done-eq s s' h))
    walk_nodes-found (node n ns) dir_path rel s s' h =
        let (t, first, rest) =
          bind-done (walk_node o mount ignore limit n dir_path rel s)
            (walk_nodes o mount ignore limit ns dir_path rel) s' h in
        walk_nodes-found ns dir_path rel t s' rest
        ∙ ap (add_all (shown_nodes o mount ignore limit ns dir_path rel))
            (walk_node-found n dir_path rel s t first)
        ∙ sym (
            add_all-append (shown_node o mount ignore limit n dir_path rel)
              (shown_nodes o mount ignore limit ns dir_path rel) s.found)

    walk_node-found :
        (n : Node) (dir_path rel : Text) (s s' : Scan)
        → walk_node o mount ignore limit n dir_path rel s ≡ done s'
        → Adds s.found (shown_node o mount ignore limit n dir_path rel) s'.found
    walk_node-found (file_node name body) dir_path rel s s' h =
        unless_skipped-found name s s' (scan_file o mount limit s dir_path rel name body)
          (asset_of o mount ignore limit (in_dir dir_path name) (child_rel rel name) body) h
          (λ e. scan_file-found s s' dir_path rel name body e)
    walk_node-found (dir_node name folder) dir_path rel s s' h =
        let key = sanitize o.is_letter o.is_digit name in
        let child =
          walk_folder o mount ignore limit folder (in_dir dir_path name) (child_rel rel name)
            s.found in
        unless_skipped-found name s s' _
          (shown_folder o mount ignore limit folder (in_dir dir_path name) (child_rel rel name)) h
          (λ e.
            let (claimed, free, after) =
              bind-done (refuse (claim s.claimed key (child_rel rel name ++ text "/") directory)) _
                s' e in
            let (out, walked, last) = bind-done child _ s' after in
            ap (λ (t : Scan). t.found) (sym (done-eq _ s' last))
            ∙ walk_folder-found folder (in_dir dir_path name) (child_rel rel name) s.found out
                walked)

-- The last of the assets that has a value
abbrev pub last_with : (Asset → Text) → Text → List Asset → Option Asset
last_with of v [] = none
last_with of v (a ∷ assets) = elim (last_with of v assets) [
  | some later ↦ some later
  | none ↦ if text_eq (of a) v then some a else none
]

abbrev or_asset : Option Asset → Option Asset → Option Asset
or_asset none other = other
or_asset (some a) other = some a

by_url-add_all :
    (url : Text) (assets : List Asset) (m : Found)
    → lookup url (add_all assets m).by_url
      ≡ or_asset (last_with (λ a. a.url) url assets) (lookup url m.by_url)
by_url-add_all url [] m = refl
by_url-add_all url (a ∷ assets) m =
    by_url-add_all url assets (add_found m a) ∙ ground (arith, lookup-insert a.url url a m.by_url)

by_rel-add_all :
    (rel : Text) (assets : List Asset) (m : Found)
    → lookup rel (add_all assets m).by_rel
      ≡ or_asset (last_with (λ a. a.rel) rel assets) (lookup rel m.by_rel)
by_rel-add_all rel [] m = refl
by_rel-add_all rel (a ∷ assets) m =
    by_rel-add_all rel assets (add_found m a) ∙ ground (arith, lookup-insert a.rel rel a m.by_rel)

sources-add_all :
    (assets : List Asset) (m : Found)
    → (add_all assets m).sources ≡ m.sources ++ map (λ a. a.path) assets
sources-add_all [] m = sym (append-nil m.sources)
sources-add_all (a ∷ assets) m =
    sources-add_all assets (add_found m a)
    ∙ append_assoc m.sources (a.path ∷ []) (map (λ (b : Asset). b.path) assets)

or_asset-none : (o : Option Asset) → or_asset o none ≡ o
or_asset-none none = refl
or_asset-none (some a) = refl

-- The files of a config's directory that are not hidden
abbrev pub shown : Outside → StaticConfig → Folder → List Asset
shown o cfg folder =
    shown_folder o (effective_mount_path (some cfg)) (effective_ignore (some cfg))
      (effective_inline_limit (some cfg)) folder cfg.location []

-- A manifest that BuildManifest returns without an error holds, under each URL and under each relative
-- path, the last file of the directory that has it and is not hidden, and nothing where there is none;
-- its sources are the paths of those files, sorted. Hidden is what a pattern matches, what begins with
-- a dot, and what a hidden directory holds.
pub build_manifest-shown :
    (o : Outside) (cfg : StaticConfig) (folder : Folder) (m : Manifest) (at : Text)
    → build_manifest o cfg folder ≡ done m
    → (lookup at m.by_url ≡ last_with (λ a. a.url) at (shown o cfg folder))
      × (lookup at m.by_rel ≡ last_with (λ a. a.rel) at (shown o cfg folder))
      × (m.sources ≡ sort_by text_leb (map (λ (a : Asset). a.path) (shown o cfg folder)))
unfolding build_manifest lookup
build_manifest-shown o cfg folder m at h =
    let mount = effective_mount_path (some cfg) in
    let ignore = effective_ignore (some cfg) in
    let limit = effective_inline_limit (some cfg) in
    let (out, walked, e) =
      bind-done (walk_folder o mount ignore limit folder cfg.location [] no_files) _ m h in
    let found : out.0 ≡ add_all (shown o cfg folder) no_files =
      walk_folder-found o mount ignore limit folder cfg.location [] no_files out walked in
    let same : manifest_from cfg.location mount out ≡ m = done-eq _ m e in
    (
      ap (λ (x : Manifest). lookup at x.by_url) (sym same)
          ∙ ap (λ (x : Found). lookup at x.by_url) found
          ∙ by_url-add_all at (shown o cfg folder) no_files
          ∙ or_asset-none _,
      ap (λ (x : Manifest). lookup at x.by_rel) (sym same)
          ∙ ap (λ (x : Found). lookup at x.by_rel) found
          ∙ by_rel-add_all at (shown o cfg folder) no_files
          ∙ or_asset-none _,
      ap (λ (x : Manifest). x.sources) (sym same)
          ∙ ap (λ (x : Found). sort_by text_leb x.sources) found
          ∙ ap (sort_by text_leb) (sources-add_all (shown o cfg folder) no_files),
    )
