-- ===== src/Caching/DiskCache.antt =====
-- internal/caching/diskcache.go and internal/hashing/digest.go: the cache of rendered components on
-- disk. Its state is its index, and the files beside it. The lock is not modelled.
pub mod Writing
pub mod Entries
pub mod Restoring
pub mod Removing
mod Tests
use go_solid.Prelude.{
  ℕ, zero, suc, Text, text, text_eq, text_leb, text_comparable, Option, none, some, List, [], ◌∷◌,
  ◌++◌, ◌&&◌, ◌||◌, not, Bool, true, false, GoMap, lookup, insert, delete, keys, keep, all, sort_by,
  is_empty, is_some, has_prefix, has_suffix, trim_suffix, trim_prefix, take, contains_char,
  if◌then◌else◌,
}
use go_solid.Paths.{separator}
use go_solid.Sources.{Result, ok, failed}
use go_solid.Io.{File, Files, Answers, write_atomic}
use go_solid.Collections.SetMap.{SetMap, add, drop, members, keys_where}
use go_solid.Caching.{Rendered, CacheKey, safe_stem, component_is_in_file}

-- ComponentDiskManifest
pub record Manifest : Type 0 where
  pub component : Text
  pub minify : Bool
  pub generated_at : Text
  pub key : Text
  pub sources : GoMap Text Text
  pub artifact_js : Text
  pub artifact_css : Text
  pub served_js : Text
  pub served_css : Text

pub record DiskCache : Type 0 where
  pub directory : Text
  pub enabled : Bool
  pub indexed : Bool
  pub by_key : GoMap Text Text
  pub by_component : SetMap Text Text

-- What the cache calls outside this repository: sha256 with its hexadecimal form, strconv.Itoa(len(s)),
-- time.Now, json's Marshal and Unmarshal, and the operating system's answers to a write, with the
-- name that os.CreateTemp picks. `normalize` is esbuild.NormalizeSourcePath, which asks the process for
-- its working directory.
pub record Outside : Type 0 where
  pub sha : Text → Text
  pub size : Text → Text
  pub now : Text
  pub encode : Manifest → Result Text
  pub decode : Text → Option Manifest
  pub answers : Files → Text → Answers
  pub staged : Files → Text → Text
  pub normalize : Text → Text

-- MANIFEST_EXT
abbrev pub manifest_ext : Text
manifest_ext = text ".meta.json"

-- NewDiskCache, where its directory can be made
unfoldable pub new_disk_cache : Text → Bool → DiskCache
new_disk_cache root enabled = record {
  directory = root ++ text "/component_cache";
  enabled = enabled;
  indexed = false;
  by_key = [];
  by_component = [];
}

-- lockedIndex
unfoldable pub locked_index : DiskCache → Text → Text → Text → DiskCache
locked_index dc key component path = record dc {
  by_key = insert key path dc.by_key;
  by_component = add dc.by_component component key;
}

-- filepath.Join of the directory and a name
abbrev pub in_directory : DiskCache → Text → Text
in_directory dc name = dc.directory ++ separator ∷ name

-- The files of a directory, as os.ReadDir lists them.
unfoldable pub listed : DiskCache → Files → List Text
listed dc fs =
    keep
      (λ path.
        has_prefix path (in_directory dc [])
        && not (contains_char separator (trim_prefix path (in_directory dc []))))
      (sort_by text_leb (keys fs))

module _ (outside : Outside) where
  -- CacheKey.String
  abbrev pub sized : Text → Text
  sized part = outside.size part ++ b':' ∷ part

  unfoldable pub key_string : CacheKey → Text
  key_string key = outside.sha (sized key.component ++ sized key.root ++ sized key.build)

  -- entryStem
  unfoldable pub entry_stem : CacheKey → Text
  unfolding key_string
  entry_stem key = safe_stem key.component ++ text "__" ++ take 12 (key_string key)

  -- OfBytes and OfFile
  abbrev pub of_bytes : Text → Text
  of_bytes bytes = text "sha256:" ++ outside.sha bytes

  unfoldable pub of_file : Files → Text → Option Text
  of_file fs path = elim (lookup path fs) [ none ↦ none | some f ↦ some (of_bytes f.content) ]

  -- Holds
  abbrev pub still : Files → Text × Text → Bool
  still fs (path, want) = elim (of_file fs path) [ none ↦ false | some got ↦ text_eq got want ]

  unfoldable pub digests_hold : GoMap Text Text → Files → Bool
  unfolding of_file
  digests_hold recorded fs = all (still fs) recorded && not (is_empty recorded)

  -- The loop of Put over the sources
  unfoldable pub record_digests : Files → List Text → GoMap Text Text → GoMap Text Text
  unfolding of_file
  record_digests fs [] recorded = recorded
  record_digests fs (src ∷ sources) recorded = record_digests fs sources (elim (of_file fs src) [
    | none ↦ recorded
    | some digest ↦ insert (outside.normalize src) digest recorded
  ])

  -- ReadManifest
  unfoldable pub read_manifest : Files → Text → Option Manifest
  read_manifest fs path = elim (lookup path fs) [ none ↦ none | some f ↦ outside.decode f.content ]

  -- One turn of the loop of lockedEnsureIndex
  abbrev pub index_manifest : DiskCache → Text → Option Manifest → DiskCache
  index_manifest dc path none = dc
  index_manifest dc path (some man) =
      if not (has_suffix path manifest_ext) || text_eq man.key []
      then dc
      else locked_index dc man.key man.component path

  unfoldable pub index_all : Files → List Text → DiskCache → DiskCache
  unfolding read_manifest locked_index
  index_all fs [] dc = dc
  index_all fs (path ∷ paths) dc =
      index_all fs paths (index_manifest dc path (read_manifest fs path))

  -- lockedEnsureIndex
  unfoldable pub ensure_index : DiskCache → Files → DiskCache
  unfolding index_all listed
  ensure_index dc fs =
      if dc.indexed then dc else index_all fs (listed dc fs) (record dc { indexed = true })

  -- The styles of an entry, with the name that they are served under.
  unfoldable pub styles_at : Files → Text → Manifest → Text × Text
  styles_at fs base man =
      if text_eq man.artifact_css [] then ([], []) else elim (lookup (base ++ text ".css") fs) [
        | none ↦ ([], [])
        | some css ↦ (css.content, man.served_css)
      ]

  -- Get from the script's file on
  abbrev pub with_script : Manifest → Text × Text → Option File → Option Rendered
  with_script man styles none = none
  with_script man (css, css_name) (some js) = some (record {
    html = [];
    css = css;
    js = js.content;
    css_name = css_name;
    js_name = man.served_js;
    data_islands = [];
  })

  -- Get from the manifest on, with the path of the entry's files before their endings
  unfoldable pub restore_from : Files → Text → Manifest → Option Rendered
  unfolding digests_hold styles_at
  restore_from fs base man =
      if digests_hold man.sources fs
      then with_script man (styles_at fs base man) (lookup (base ++ text ".js") fs)
      else none

  unfoldable pub restore : Files → Text → Manifest → Option Rendered
  unfolding restore_from
  restore fs path man = restore_from fs (trim_suffix path manifest_ext) man

  abbrev pub load_from : Files → Text → Option Manifest → Option Rendered
  load_from fs path none = none
  load_from fs path (some man) = restore fs path man

  unfoldable pub load_at : Files → Option Text → Option Rendered
  unfolding restore read_manifest
  load_at fs none = none
  load_at fs (some path) = load_from fs path (read_manifest fs path)

  -- Get
  unfoldable pub load : DiskCache → Files → CacheKey → Option Rendered × DiskCache
  unfolding load_at key_string ensure_index
  load dc fs key =
      let indexed = ensure_index dc fs in
      if dc.enabled
      then (load_at fs (lookup (key_string key) indexed.by_key), indexed)
      else (none, dc)

  -- ComponentsInFile
  unfoldable pub disk_components_in_file : DiskCache → Files → Text → List Text × DiskCache
  unfolding ensure_index
  disk_components_in_file dc fs file =
      let indexed = ensure_index dc fs in
      if dc.enabled
      then (
        keys_where indexed.by_component (λ component. component_is_in_file component file),
        indexed,
      )
      else ([], dc)
