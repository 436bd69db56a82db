-- ===== src/Static/Scan/Walk.antt =====
-- scanDir and BuildManifest of internal/static/manifest.go, by recursion on the directory.
use go_solid.Prelude.{
  ℕ, Text, text, text_leb, text_comparable, none, some, List, [], ◌∷◌, ◌++◌, Bool, false, ◌||◌, any,
  has_prefix, sort_by, if◌then◌else◌,
}
use go_solid.Sources.{Result, ok, failed}
use go_solid.Static.Keys.{directory, claim, sanitize}
use go_solid.Static.Config.{
  StaticConfig, effective_mount_path, effective_ignore, effective_inline_limit,
}
use go_solid.Static.Manifest.{Asset, Dir, Manifest}
use go_solid.Static.Scan.{
  Folder, unreadable, readable, Nodes, no_nodes, node, Node, file_node, dir_node, not_read, Scanned,
  done, stopped, ◌>>=◌, Outside, Found, Scan, started, in_dir, child_rel, refuse, described,
  check_name, finish, scan_file, with_child,
}

module _ (o : Outside) (mount : Text) (ignore : List Text) (limit : ℕ) where
  -- An entry that the patterns skip, or that is a dotfile
  abbrev pub unless_skipped : Text → Scan → Scanned Scan → Scanned Scan
  unless_skipped name s scanned = check_name o name ignore >>= λ skip.
      if skip || has_prefix name (text ".") then done s else scanned

  -- scanDir
  unfoldable mutual
    unfolding check_name finish scan_file claim sanitize

    pub walk_folder : Folder → Text → Text → Found → Scanned (Found × Dir)
    walk_folder (unreadable e) dir_path rel m = stopped (not_read dir_path e)
    walk_folder (readable nodes) dir_path rel m =
        walk_nodes nodes dir_path rel (started m) >>= finish o rel

    pub walk_nodes : Nodes → Text → Text → Scan → Scanned Scan
    walk_nodes no_nodes dir_path rel s = done s
    walk_nodes (node n ns) dir_path rel s =
        walk_node n dir_path rel s >>= walk_nodes ns dir_path rel

    pub walk_node : Node → Text → Text → Scan → Scanned Scan
    walk_node (file_node name body) dir_path rel s =
        unless_skipped name s (scan_file o mount limit s dir_path rel name body)
    walk_node (dir_node name folder) dir_path rel s =
        let key = sanitize o.is_letter o.is_digit name in
        let child = walk_folder folder (in_dir dir_path name) (child_rel rel name) s.found in
        unless_skipped name s (
          refuse (claim s.claimed key (child_rel rel name ++ text "/") directory) >>= λ claimed.
          child >>= λ out. done (with_child o s key claimed out))

  -- The files that are not hidden, as they are described
  abbrev pub matched : Text → Text → Bool
  matched name pattern = elim (o.matches pattern name) [ none ↦ false | some yes_ ↦ yes_ ]

  abbrev pub is_hidden : Text → Bool
  is_hidden name = any (matched name) ignore || has_prefix name (text ".")

  abbrev pub asset_of : Text → Text → Result Text → List Asset
  asset_of abs rel (failed e) = []
  asset_of abs rel (ok body) = described o abs rel mount limit body ∷ []

  unfoldable mutual
    pub shown_folder : Folder → Text → Text → List Asset
    shown_folder (unreadable e) dir_path rel = []
    shown_folder (readable nodes) dir_path rel = shown_nodes nodes dir_path rel

    pub shown_nodes : Nodes → Text → Text → List Asset
    shown_nodes no_nodes dir_path rel = []
    shown_nodes (node n ns) dir_path rel = shown_node n dir_path rel ++ shown_nodes ns dir_path rel

    pub shown_node : Node → Text → Text → List Asset
    shown_node (file_node name body) dir_path rel =
        if is_hidden name then [] else asset_of (in_dir dir_path name) (child_rel rel name) body
    shown_node (dir_node name folder) dir_path rel =
        let inside = shown_folder folder (in_dir dir_path name) (child_rel rel name) in
        if is_hidden name then [] else inside

abbrev pub no_files : Found
no_files = record { by_url = []; by_rel = []; sources = [] }

abbrev pub manifest_from : Text → Text → Found × Dir → Manifest
manifest_from root mount (m, tree) = record {
  root = root;
  mount_path = mount;
  by_url = m.by_url;
  by_rel = m.by_rel;
  tree = tree;
  sources = sort_by text_leb m.sources;
}

-- BuildManifest, for a config that is not nil and the directory at its location
unfoldable pub build_manifest : Outside → StaticConfig → Folder → Scanned Manifest
unfolding walk_folder effective_mount_path effective_ignore effective_inline_limit
build_manifest o cfg folder =
    let mount = effective_mount_path (some cfg) in
    walk_folder o mount (effective_ignore (some cfg)) (effective_inline_limit (some cfg)) folder
      cfg.location [] no_files
    >>= λ out. done (manifest_from cfg.location mount out)
