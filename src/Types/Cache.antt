-- ===== src/Types/Cache.antt =====
-- internal/types/cache.go: the cache of what was read of the props of a component, in memory and, where
-- it has a root, on disk. The lock is not modelled.
pub mod Recording
pub mod Pruning
pub mod Keeping
pub mod Restoring
pub mod Collisions
mod Tests
use go_solid.Prelude.{
  ℕ, ◌+◌, Text, text, text_eq, text_leb, text_comparable, Option, none, some, List, [], ◌∷◌, ◌++◌,
  ◌&&◌, ◌||◌, not, Bool, true, false, GoMap, lookup, insert, delete, keys, keep, any, all, contains,
  sort_by, is_empty, has_prefix, has_suffix, split_by, map, inl, inr, ◌⊎◌, if◌then◌else◌,
}
use go_solid.Sources.{Result, ok, failed, Reader}
use go_solid.Io.{File, Files, Answers, write_if_changed}
use go_solid.Meta.{split_selector, valid_export_name}
use go_solid.Paths.{separator}
use go_solid.Types.Shape.{Field, Shape, new_shape}

-- Extraction, of internal/types/extract.go
pub record Extraction : Type 0 where
  pub shape : Shape
  pub name : Text
  pub found : Bool
  pub has_parameter : Bool
  pub sources : List Text
  pub unresolved : List Text

-- entry
pub record Entry : Type 0 where
  pub component : Text
  pub sources : GoMap Text Text
  pub fields : List Field
  pub name : Text
  pub found : Bool
  pub has_param : Bool
  pub unresolved : List Text

-- memEntry
pub record MemEntry : Type 0 where
  pub extraction : Extraction
  pub stamps : GoMap Text Text

pub record TypeCache : Type 0 where
  pub root : Text
  pub mem : GoMap Text MemEntry

-- What the cache calls outside this repository: filepath.Join of the root and a name, json's Marshal
-- and Unmarshal, and the operating system's answers: to a write, with the name that os.CreateTemp
-- picks, to the walk over the root, and to each os.Remove.
pub record Outside : Type 0 where
  pub join : Text → Text → Text
  pub encode : Entry → Result Text
  pub decode : Text → Option Entry
  pub answers : Files → Text → Answers
  pub staged : Files → Text → Text
  pub is_missing : Text → Bool
  pub walk_fault : Option Text
  pub remove_fault : Text → Option Text

-- CACHE_DIR_NAME and CACHE_ENTRY_EXT
abbrev pub cache_dir_name : Text
cache_dir_name = text "type_cache"

abbrev pub cache_entry_ext : Text
cache_entry_ext = text ".types.json"

-- validComponentName, with the names of its errors
pub data NameError : Type 0 where
  empty_name not_relative not_importable : NameError

abbrev pub is_bad_segment : Text → Bool
is_bad_segment segment =
    text_eq segment [] || text_eq segment (text ".") || text_eq segment (text "..")

unfoldable pub valid_component_name : Text → Option NameError
unfolding split_selector split_by valid_export_name
valid_component_name component =
    let (file, export) = split_selector component in
    if text_eq component []
    then some empty_name
    else if any is_bad_segment (split_by separator file)
    then some not_relative
    else if not (valid_export_name export)
    then some not_importable
    else none

pub data CacheError : Type 0 where
  bad_name : NameError → CacheError
  undigestible : Text → CacheError
  encode_fault publish_fault walk_error prune_fault : Text → CacheError

-- persists
unfoldable pub persists : TypeCache → Bool
persists c = not (text_eq c.root [])

-- stampsHold
abbrev pub stamp_holds : Reader → Text × Text → Bool
stamp_holds reader (path, was) = elim (reader.stamp_of path) [
  | failed e ↦ false
  | ok now ↦ text_eq now was
]

unfoldable pub stamps_hold : Reader → GoMap Text Text → Bool
stamps_hold reader stamps = all (stamp_holds reader) stamps && not (is_empty stamps)

-- digestsHold
abbrev pub digest_holds : Reader → Text × Text → Bool
digest_holds reader (path, want) = elim (reader.digest_of path) [
  | none ↦ false
  | some got ↦ text_eq got want
]

unfoldable pub digests_hold : Reader → GoMap Text Text → Bool
digests_hold reader recorded = all (digest_holds reader) recorded && not (is_empty recorded)

-- The loop of remember, which gives up on the first source that has no stamp
unfoldable pub stamps_for : Reader → List Text → GoMap Text Text → Option (GoMap Text Text)
stamps_for reader [] stamps = some stamps
stamps_for reader (source ∷ sources) stamps = elim (reader.stamp_of source) [
  | failed e ↦ none
  | ok s ↦ stamps_for reader sources (insert source s stamps)
]

-- remember
unfoldable pub remember : TypeCache → Reader → Text → Extraction → TypeCache
unfolding stamps_for
remember c reader component x = elim (stamps_for reader x.sources []) [
  | none ↦ c
  | some stamps ↦ record c {
    mem = insert component (record { extraction = x; stamps = stamps }) c.mem;
  }
]

-- digests: what was recorded, or the first path that cannot be hashed
unfoldable pub digests : Reader → List Text → GoMap Text Text → Text ⊎ GoMap Text Text
digests reader [] out = inr out
digests reader (path ∷ paths) out = elim (reader.digest_of path) [
  | none ↦ inl path
  | some digest ↦ digests reader paths (insert path digest out)
]

-- Invalidate
unfoldable pub invalidate : TypeCache → Text → TypeCache
invalidate c component = record c { mem = delete component c.mem }

-- The extraction that an entry holds, as read gives it
unfoldable pub extraction_of : Entry → Extraction
extraction_of stored = record {
  shape = new_shape stored.fields;
  name = stored.name;
  found = stored.found;
  has_parameter = stored.has_param;
  sources = sort_by text_leb (keys stored.sources);
  unresolved = stored.unresolved;
}

-- The entry that write makes
unfoldable pub entry_for : Text → GoMap Text Text → Extraction → Entry
entry_for component recorded x = record {
  component = component;
  sources = recorded;
  fields = x.shape.fields;
  name = x.name;
  found = x.found;
  has_param = x.has_parameter;
  unresolved = x.unresolved;
}

module _ (outside : Outside) where
  -- NewCache; an empty workspace leaves the cache in memory.
  unfoldable pub new_cache : Text → TypeCache
  new_cache workspace = record {
    root = if text_eq workspace [] then [] else outside.join workspace cache_dir_name;
    mem = [];
  }

  -- Path, where filepath.FromSlash changes nothing
  unfoldable pub stem_of : Text → Text
  unfolding split_selector
  stem_of component =
      let (file, export) = split_selector component in
      if text_eq export [] then file else file ++ (text "__" ++ export)

  unfoldable pub path_of : TypeCache → Text → Text
  unfolding stem_of
  path_of c component = outside.join c.root (stem_of component ++ cache_entry_ext)

  -- read, from the decoded entry on
  abbrev pub fresh_entry : Reader → Option Entry → Option Extraction
  fresh_entry reader none = none
  fresh_entry reader (some stored) =
      if is_empty stored.sources
      then none
      else if digests_hold reader stored.sources
      then some (extraction_of stored)
      else none

  abbrev pub decode_file : Option File → Option Entry
  decode_file none = none
  decode_file (some f) = outside.decode f.content

  unfoldable pub read : TypeCache → Reader → Files → Text → Option Extraction
  unfolding persists path_of digests_hold extraction_of
  read c reader fs component =
      if persists c
      then fresh_entry reader (decode_file (lookup (path_of c component) fs))
      else none

  -- Get from the disk on
  abbrev pub read_back :
      TypeCache → Reader → Text → Option Extraction → Option Extraction × TypeCache
  read_back c reader component none = (none, c)
  read_back c reader component (some stored) = (some stored, remember c reader component stored)

  abbrev pub get_from :
      TypeCache
      → Reader
      → Text
      → Option MemEntry
      → Option Extraction
      → Option Extraction × TypeCache
  get_from c reader component none stored = read_back c reader component stored
  get_from c reader component (some hit) stored =
      if stamps_hold reader hit.stamps
      then (some hit.extraction, c)
      else read_back c reader component stored

  -- Get
  unfoldable pub get : TypeCache → Reader → Files → Text → Option Extraction × TypeCache
  unfolding read remember stamps_hold
  get c reader fs component =
      get_from c reader component (lookup component c.mem) (read c reader fs component)

  -- write
  abbrev pub publish : TypeCache → Files → Text → Result Text → Files × Option CacheError
  publish c fs component (failed e) = (fs, some (encode_fault e))
  publish c fs component (ok raw) =
      let path = path_of c component in
      let (after, wrote, fault) =
        write_if_changed (outside.answers fs path) (outside.staged fs path) path raw 420 fs in
      (after, elim fault [ none ↦ none | some e ↦ some (publish_fault e) ])

  abbrev pub write_digested :
      TypeCache → Files → Text → Extraction → Text ⊎ GoMap Text Text → Files × Option CacheError
  write_digested c fs component x (inl path) = (fs, some (undigestible path))
  write_digested c fs component x (inr recorded) =
      publish c fs component (outside.encode (entry_for component recorded x))

  unfoldable pub write : TypeCache → Reader → Files → Text → Extraction → Files × Option CacheError
  unfolding persists digests entry_for path_of write_if_changed
  write c reader fs component x =
      if persists c
      then write_digested c fs component x (digests reader x.sources [])
      else (fs, none)

  -- Put
  abbrev pub put_named :
      Option NameError
      → TypeCache
      → Reader
      → Files
      → Text
      → Extraction
      → TypeCache × Files × Option CacheError
  put_named (some e) c reader fs component x = (c, fs, some (bad_name e))
  put_named none c reader fs component x =
      let (after, fault) = write c reader fs component x in
      (remember c reader component x, after, fault)

  unfoldable pub put :
      TypeCache → Reader → Files → Text → Extraction → TypeCache × Files × Option CacheError
  unfolding remember write valid_component_name
  put c reader fs component x = put_named (valid_component_name component) c reader fs component x

  -- Prune: an entry of none of the known components
  abbrev pub is_live : TypeCache → List Text → Text → Bool
  is_live c known path = contains path (map (path_of c) known)

  abbrev pub is_stale : TypeCache → List Text → Text → Bool
  is_stale c known path =
      has_prefix path (c.root ++ separator ∷ [])
      && not (is_live c known path)
      && has_suffix path cache_entry_ext

  -- Its loop of os.Remove, with the entries removed so far
  unfoldable pub remove_each : List Text → Files → ℕ → Files × ℕ × Option CacheError
  remove_each [] fs removed = (fs, removed, none)
  remove_each (path ∷ paths) fs removed =
      let rest = remove_each paths (delete path fs) (removed + 1) in
      elim (outside.remove_fault path) [
        | some e ↦ (fs, removed, some (prune_fault e))
        | none ↦ rest
      ]

  -- Prune. Its removal of empty directories changes no file.
  unfoldable pub prune : TypeCache → List Text → Files → Files × ℕ × Option CacheError
  unfolding persists path_of remove_each
  prune c known fs =
      if not (persists c) || outside.is_missing c.root
      then (fs, 0, none)
      else elim outside.walk_fault [
        | some e ↦ (fs, 0, some (walk_error e))
        | none ↦ remove_each (keep (is_stale c known) (sort_by text_leb (keys fs))) fs 0
      ]
