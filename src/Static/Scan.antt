-- ===== src/Static/Scan.antt =====
-- BuildManifest of internal/static/manifest.go: one walk over the directory of the static files. A Folder is
-- what os.ReadDir and os.ReadFile answer for it: its entries in their order, each file with its bytes.
pub mod Walk
pub mod Listing
use go_solid.Prelude.{
  ℕ, Text, text, text_eq, text_leb, text_comparable, Option, none, some, List, [], ◌∷◌, ◌++◌, Bool,
  true, false, GoMap, lookup, insert, has_prefix, trim_prefix, trim_suffix, take, length, leb,
  sort_by, insert_by, if◌then◌else◌,
}
use go_solid.Paths.{base, separator, to_lower, file_ext}
use go_solid.Sources.{Result, ok, failed}
use go_solid.Static.Keys.{Collision, Kind, directory, file, claim, sanitize}
use go_solid.Static.Manifest.{
  Asset, Entry, leaf, by_extension, entry_key, Dir, dir, Dirs, no_dirs, sub, dir_name, Manifest,
}

mutual
  pub data Folder : Type 0 where
    unreadable : Text → Folder
    readable : Nodes → Folder

  pub data Nodes : Type 0 where
    no_nodes : Nodes
    node : Node → Nodes → Nodes

  -- An entry with its name
  pub data Node : Type 0 where
    file_node : Text → Result Text → Node
    dir_node : Text → Folder → Node

pub data ScanError : Type 0 where
  not_read : Text → Text → ScanError
  bad_pattern : Text → ScanError
  collision : Collision → ScanError
  same_extension : Text → Text → Text → Text → ScanError

pub data Scanned (A : Type 0) : Type 0 where
  done : A → Scanned A
  stopped : ScanError → Scanned A

infixl 5 ◌>>=◌
abbrev pub ◌>>=◌ : {A B : Type 0} → Scanned A → (A → Scanned B) → Scanned B
done a >>= f = f a
stopped e >>= f = stopped e

-- What the scan calls outside this repository: filepath.Match, the first characters of a SHA-256, the
-- types that mime knows, and unicode's letters and digits.
pub record Outside : Type 0 where
  pub matches : Text → Text → Option Bool
  pub short : Text → ℕ → Text
  pub type_by_extension : Text → Text
  pub parse_media_type : Text → Option Text
  pub is_letter : ℕ → Bool
  pub is_digit : ℕ → Bool

-- The part of a Manifest that the walk fills in
pub record Found : Type 0 where
  pub by_url : GoMap Text Asset
  pub by_rel : GoMap Text Asset
  pub sources : List Text

-- The variables of one scanDir: the manifest's part, `claimed`, `grouped`, `order` and the directories
pub record Scan : Type 0 where
  pub found : Found
  pub claimed : GoMap Text Text
  pub grouped : GoMap Text (List Asset)
  pub order : List Text
  pub dirs : Dirs

abbrev pub started : Found → Scan
started found = record { found = found; claimed = []; grouped = []; order = []; dirs = no_dirs }

-- filepath.Join of a directory and a name in it, and childRel
abbrev pub in_dir : Text → Text → Text
in_dir dir_path name = dir_path ++ (separator ∷ name)

abbrev pub child_rel : Text → Text → Text
child_rel rel name = if text_eq rel [] then name else in_dir rel name

-- append, and the map of the groups
abbrev pub group_of : Option (List Asset) → List Asset
group_of none = []
group_of (some assets) = assets

abbrev pub join_group : Scan → Text → Asset → Option (List Asset) → Scan
join_group s key asset none = record s {
  grouped = insert key (asset ∷ []) s.grouped;
  order = s.order ++ key ∷ [];
}
join_group s key asset (some assets) = record s {
  grouped = insert key (assets ++ asset ∷ []) s.grouped;
}

abbrev pub add_found : Found → Asset → Found
add_found m asset = record {
  by_url = insert asset.url asset m.by_url;
  by_rel = insert asset.rel asset m.by_rel;
  sources = m.sources ++ asset.path ∷ [];
}

-- sort.Slice by name, which the names' being different makes one order
unfoldable pub insert_dir : Dir → Dirs → Dirs
insert_dir d no_dirs = sub d no_dirs
insert_dir d (sub e dirs) =
    if text_leb (dir_name d) (dir_name e) then sub d (sub e dirs) else sub e (insert_dir d dirs)

unfoldable pub sort_dirs : Dirs → Dirs
unfolding insert_dir
sort_dirs no_dirs = no_dirs
sort_dirs (sub d dirs) = insert_dir d (sort_dirs dirs)

abbrev pub renamed : Text → Dir → Dir
renamed key (dir name rel dirs files) = dir key rel dirs files

abbrev pub refuse : Option Collision × GoMap Text Text → Scanned (GoMap Text Text)
refuse (some c, claimed) = stopped (collision c)
refuse (none, claimed) = done claimed

module _ (o : Outside) where
  -- mediaType
  unfoldable pub known_type : Text → Text
  known_type ext =
      if text_eq ext (text ".woff2")
      then text "font/woff2"
      else if text_eq ext (text ".woff")
      then text "font/woff"
      else if text_eq ext (text ".webmanifest")
      then text "application/manifest+json"
      else text "application/octet-stream"

  unfoldable pub media_type : Text → Text
  unfolding known_type
  media_type ext =
      let t = o.type_by_extension ext in
      if text_eq t []
      then known_type (to_lower ext)
      else elim (o.parse_media_type t) [ none ↦ t | some parsed ↦ parsed ]

  -- describe, on the bytes of a file
  unfoldable pub described : Text → Text → Text → ℕ → Text → Asset
  unfolding media_type file_ext
  described abs rel mount limit body =
      let digest = o.short body 64 in
      let ext = file_ext rel in
      record {
        rel = rel;
        path = abs;
        url = mount ++ trim_suffix rel ext ++ text "." ++ take 8 digest ++ ext;
        mime = media_type ext;
        size = length body;
        content_hash = digest;
        mem_cached = if leb (length body) limit then some body else none;
      }

  -- describe
  abbrev pub describe : Text → Text → Text → ℕ → Result Text → Scanned Asset
  describe abs rel mount limit (failed e) = stopped (not_read abs e)
  describe abs rel mount limit (ok body) = done (described abs rel mount limit body)

  -- checkNameAgainstPatterns
  unfoldable pub check_name : Text → List Text → Scanned Bool
  check_name name [] = done false
  check_name name (pattern ∷ patterns) = elim (o.matches pattern name) [
    | none ↦ stopped (bad_pattern pattern)
    | some yes_ ↦ if yes_ then done true else check_name name patterns
  ]

  -- The loop of entryFor over the assets of a key, with `byExt` and the entries so far
  abbrev pub extension_key : Asset → Text
  extension_key asset =
      let ext = sanitize o.is_letter o.is_digit (trim_prefix (file_ext asset.rel) (text ".")) in
      if text_eq ext [] then text "none" else ext

  unfoldable pub split_extensions :
      Text → List Asset → GoMap Text Asset → Scanned (List (Text × Asset))
  unfolding sanitize file_ext
  split_extensions key [] by_ext = done []
  split_extensions key (asset ∷ assets) by_ext = elim (lookup (extension_key asset) by_ext) [
    | some other ↦ stopped (same_extension other.rel asset.rel key (extension_key asset))
    | none ↦ split_extensions key assets (insert (extension_key asset) asset by_ext) >>= λ rest.
        done ((extension_key asset, asset) ∷ rest)
  ]

  -- entryFor
  abbrev pub before_key : Text × Asset → Text × Asset → Bool
  before_key (k, a) (l, b) = text_leb k l

  unfoldable pub entry_for : Text → List Asset → Scanned Entry
  unfolding split_extensions
  entry_for key (asset ∷ []) = done (leaf key asset)
  entry_for key assets = split_extensions key assets [] >>= λ entries.
      done (by_extension key (sort_by before_key entries))

  -- The loop of scanDir over the keys of the files
  abbrev pub first_rel : List Asset → Text
  first_rel [] = []
  first_rel (asset ∷ assets) = asset.rel

  unfoldable pub file_entries :
      List Text → GoMap Text (List Asset) → GoMap Text Text → Scanned (List Entry)
  unfolding claim entry_for
  file_entries [] grouped claimed = done []
  file_entries (key ∷ keys) grouped claimed =
      let assets = group_of (lookup key grouped) in
      refuse (claim claimed key (first_rel assets) file) >>= λ claimed'.
      entry_for key assets >>= λ entry.
      file_entries keys grouped claimed' >>= λ rest. done (entry ∷ rest)

  -- The end of scanDir
  abbrev pub before_entry : Entry → Entry → Bool
  before_entry a b = text_leb (entry_key a) (entry_key b)

  unfoldable pub finish : Text → Scan → Scanned (Found × Dir)
  unfolding file_entries sort_dirs sanitize
  finish rel s = file_entries s.order s.grouped s.claimed >>= λ files. done (
    s.found,
    dir (if text_eq rel [] then [] else sanitize o.is_letter o.is_digit (base rel)) rel
        (sort_dirs s.dirs) (sort_by before_entry files),
  )

  -- A file that is not skipped
  unfoldable pub scan_file : Text → ℕ → Scan → Text → Text → Text → Result Text → Scanned Scan
  unfolding described sanitize file_ext
  scan_file mount limit s dir_path rel name body =
      describe (in_dir dir_path name) (child_rel rel name) mount limit body >>= λ asset.
      let key = sanitize o.is_letter o.is_digit (trim_suffix name (file_ext name)) in
      done
        (join_group (record s { found = add_found s.found asset }) key asset (lookup key s.grouped))

  -- What a directory's walk gives its parent
  abbrev pub with_child : Scan → Text → GoMap Text Text → Found × Dir → Scan
  with_child s key claimed (m, child) = record s {
    found = m;
    claimed = claimed;
    dirs = sub (renamed key child) s.dirs;
  }
