-- ===== src/Caching/DiskCache/Restoring.antt =====
-- internal/caching/diskcache.go: what a Get finds after a Put.
use go_solid.Prelude.{
  Text, text, text_eq, text_comparable, none, List, [], ◌++◌, Bool, if◌then◌else◌, ◌≡◌,
}
use go_solid.Sources.{ok}
use go_solid.Io.{Files}
use go_solid.Caching.{Rendered, CacheKey}
use go_solid.Caching.DiskCache.{
  DiskCache, Outside, manifest_ext, locked_index, in_directory, key_string, entry_stem,
}
use go_solid.Caching.DiskCache.Writing.{
  manifest_for, write_file, next_write, write_styles, write_manifest, Stored, store,
}
use go_solid.Caching.DiskCache.Entries.{after_all, AreThere}

-- What a cache on disk gives back of an artifact.
abbrev pub stored : Rendered → Rendered
stored r = record r {
  html = [];
  css_name = if text_eq r.css [] then [] else r.css_name;
  data_islands = [];
}

module _ (outside : Outside) where
  abbrev base_of : DiskCache → CacheKey → Text
  base_of dc key = in_directory dc (entry_stem outside key)

  -- What a Put that returns nil has done.
  abbrev IsStored : DiskCache → Files → CacheKey → Bool → Rendered → List Text → Type 0
  IsStored dc fs key minify r sources =
      (bytes : Text) × (outside.encode (manifest_for outside fs key minify r sources) ≡ ok bytes)
      × AreThere outside (base_of dc key) bytes r (after_all outside (base_of dc key) bytes r fs)
      × (store outside dc fs key minify r sources ≡ (
        locked_index dc (key_string outside key) key.component (base_of dc key ++ manifest_ext),
        after_all outside (base_of dc key) bytes r fs,
        none,
      ))

  -- The writes of Put, where the cache is enabled.
  abbrev writes : DiskCache → Files → CacheKey → Bool → Rendered → List Text → Stored outside
  writes dc fs key minify r sources =
      let base = base_of dc key in
      next_write outside dc (write_file outside (base ++ text ".js") r.js fs) (λ fs1.
        next_write outside dc (write_styles outside base r fs1) (
          write_manifest outside dc key (base ++ manifest_ext)
            (outside.encode (manifest_for outside fs key minify r sources))))
