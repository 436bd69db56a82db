-- ===== src/Caching/DiskCache/Writing.antt =====
-- Put and InvalidateComponent of internal/caching/diskcache.go.
use go_solid.Prelude.{
  Text, text, text_eq, text_comparable, Option, none, some, List, [], ◌∷◌, ◌++◌, Bool, lookup,
  delete, trim_suffix, if◌then◌else◌,
}
use go_solid.Sources.{Result, ok, failed}
use go_solid.Io.{Files, write_atomic}
use go_solid.Collections.SetMap.{drop, members}
use go_solid.Caching.{Rendered, CacheKey}
use go_solid.Caching.DiskCache.{
  Manifest, DiskCache, Outside, manifest_ext, locked_index, in_directory, key_string, entry_stem,
  record_digests, ensure_index,
}

module _ (outside : Outside) where
  -- The manifest that Put writes
  unfoldable pub manifest_for : Files → CacheKey → Bool → Rendered → List Text → Manifest
  unfolding key_string entry_stem record_digests
  manifest_for fs key minify r sources = record {
    component = key.component;
    minify = minify;
    generated_at = outside.now;
    key = key_string outside key;
    sources = record_digests outside fs sources [];
    artifact_js = entry_stem outside key ++ text ".js";
    artifact_css = if text_eq r.css [] then [] else entry_stem outside key ++ text ".css";
    served_js = r.js_name;
    served_css = r.css_name;
  }

  -- WriteAtomic
  unfoldable pub write_file : Text → Text → Files → Files × Option Text
  unfolding write_atomic
  write_file path bytes fs =
      write_atomic (outside.answers fs path) (outside.staged fs path) path bytes 0 fs

  abbrev pub Stored : Type 0
  Stored = DiskCache × Files × Option Text

  -- `if err := …; err != nil { return err }`
  abbrev pub next_write : DiskCache → Files × Option Text → (Files → Stored) → Stored
  next_write dc (fs, some e) next = (dc, fs, some e)
  next_write dc (fs, none) next = next fs

  unfoldable pub write_styles : Text → Rendered → Files → Files × Option Text
  unfolding write_file
  write_styles base r fs =
      if text_eq r.css [] then (fs, none) else write_file (base ++ text ".css") r.css fs

  -- Put from the manifest's bytes on
  abbrev pub write_manifest : DiskCache → CacheKey → Text → Result Text → Files → Stored
  write_manifest dc key path (failed e) fs = (dc, fs, some e)
  write_manifest dc key path (ok bytes) fs =
      next_write dc (write_file path bytes fs)
        (λ after. (locked_index dc (key_string outside key) key.component path, after, none))

  -- Put
  unfoldable pub store : DiskCache → Files → CacheKey → Bool → Rendered → List Text → Stored
  unfolding write_file write_styles locked_index manifest_for
  store dc fs key minify r sources =
      let base = in_directory dc (entry_stem outside key) in
      let man = manifest_for fs key minify r sources in
      if dc.enabled
      then next_write dc (write_file (base ++ text ".js") r.js fs) (λ fs1.
        next_write dc (write_styles base r fs1)
          (write_manifest dc key (base ++ manifest_ext) (outside.encode man)))
      else (dc, fs, none)

  -- The files of an entry go; os.Remove of a file that is not there does nothing.
  abbrev pub remove_entry : Text → Files → Files
  remove_entry base fs =
      delete (base ++ manifest_ext) (delete (base ++ text ".css") (delete (base ++ text ".js") fs))

  abbrev pub remove_found : Option Text → Files → Files
  remove_found none fs = fs
  remove_found (some path) fs = remove_entry (trim_suffix path manifest_ext) fs

  -- The loop of InvalidateComponent
  unfoldable pub remove_all : List Text → DiskCache → Files → DiskCache × Files
  remove_all [] dc fs = (dc, fs)
  remove_all (key ∷ ks) dc fs =
      remove_all ks (record dc { by_key = delete key dc.by_key })
        (remove_found (lookup key dc.by_key) fs)

  -- InvalidateComponent, without its count
  unfoldable pub invalidate : DiskCache → Files → Text → DiskCache × Files
  unfolding ensure_index remove_all
  invalidate dc fs component =
      let indexed = ensure_index outside dc fs in
      let (after, left) = remove_all (members indexed.by_component component) indexed fs in
      if dc.enabled
      then (record after { by_component = drop after.by_component component }, left)
      else (dc, fs)
