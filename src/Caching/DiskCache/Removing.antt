-- ===== src/Caching/DiskCache/Removing.antt =====
-- internal/caching/diskcache.go: what InvalidateComponent leaves of the index.
use go_solid.Prelude.{
  Text, text_eq_iff, text_comparable, Option, none, some, List, [], ◌∷◌, Bool, true, false, lookup,
  delete, lookup-delete, contains, if_true, if◌then◌else◌, ◌≡◌, refl, ◌∙◌, ap, arith,
}
use go_solid.Io.{Files}
use go_solid.Collections.SetMap.{members}
use go_solid.Collections.SetMap.Laws.{holds}
use go_solid.Caching.{Rendered, CacheKey}
use go_solid.Caching.DiskCache.{
  Manifest, DiskCache, Outside, index_manifest, key_string, locked_index, listed, index_all,
  read_manifest, ensure_index, load_at, load,
}
use go_solid.Caching.DiskCache.Writing.{remove_found, remove_all, invalidate}

module _ (outside : Outside) where
  lookup-remove_all :
      (ks : List Text) (dc : DiskCache) (fs : Files) (k : Text)
      → lookup k (remove_all outside ks dc fs).0.by_key
        ≡ (if contains k ks then none else lookup k dc.by_key)
  unfolding remove_all
  lookup-remove_all [] dc fs k = refl
  lookup-remove_all (key ∷ ks) dc fs k =
      lookup-remove_all ks (record dc { by_key = delete key dc.by_key })
        (remove_found outside (lookup key dc.by_key) fs) k
      ∙ ground (arith, lookup-delete key k dc.by_key, text_eq_iff key k, text_eq_iff k key)

  remove_all-indexed :
      (ks : List Text) (dc : DiskCache) (fs : Files)
      → (remove_all outside ks dc fs).0.indexed ≡ dc.indexed
  unfolding remove_all
  remove_all-indexed [] dc fs = refl
  remove_all-indexed (key ∷ ks) dc fs =
      remove_all-indexed ks (record dc { by_key = delete key dc.by_key }) _

  index_manifest-indexed :
      (dc : DiskCache) (path : Text) (read : Option Manifest)
      → (index_manifest outside dc path read).indexed ≡ dc.indexed
  unfolding locked_index
  index_manifest-indexed dc path none = refl
  index_manifest-indexed dc path (some man) = ground arith

  index_all-indexed :
      (fs : Files) (paths : List Text) (dc : DiskCache)
      → (index_all outside fs paths dc).indexed ≡ dc.indexed
  unfolding index_all
  index_all-indexed fs [] dc = refl
  index_all-indexed fs (path ∷ paths) dc =
      index_all-indexed fs paths (index_manifest outside dc path (read_manifest outside fs path))
      ∙ index_manifest-indexed dc path (read_manifest outside fs path)

  ensure_index-indexed : (dc : DiskCache) (fs : Files) → (ensure_index outside dc fs).indexed ≡ true
  unfolding ensure_index
  ensure_index-indexed dc fs =
      ground (arith, index_all-indexed fs (listed dc fs) (record dc { indexed = true }))

  -- What InvalidateComponent leaves of the index, where the cache is enabled
  abbrev left : DiskCache → Files → Text → DiskCache
  left dc fs component = (invalidate outside dc fs component).0

  left-indexed :
      (dc : DiskCache) (fs : Files) (component : Text)
      → dc.enabled ≡ true
      → (left dc fs component).indexed ≡ true
  unfolding invalidate
  left-indexed dc fs component on =
      let dc' = ensure_index outside dc fs in
      ap (λ (r : DiskCache × Files). r.0.indexed) (if_true dc.enabled _ _ on)
      ∙ remove_all-indexed (members dc'.by_component component) dc' fs
      ∙ ensure_index-indexed dc fs

  -- The keys that InvalidateComponent leaves in the index of a cache that is enabled
  lookup-invalidate :
      (dc : DiskCache) (fs : Files) (component k : Text)
      → dc.enabled ≡ true
      → let dc' = ensure_index outside dc fs in
        lookup k (left dc fs component).by_key
        ≡ (if holds dc'.by_component component k then none else lookup k dc'.by_key)
  unfolding invalidate
  lookup-invalidate dc fs component k on =
      let dc' = ensure_index outside dc fs in
      ap (λ (r : DiskCache × Files). lookup k r.0.by_key) (if_true dc.enabled _ _ on)
      ∙ lookup-remove_all (members dc'.by_component component) dc' fs k

  missing_or_off :
      (b : Bool) (found : Option Rendered × DiskCache) (dc : DiskCache)
      → found.0 ≡ none
      → (if b then found else (none, dc)).0 ≡ none
  missing_or_off true found dc h = h
  missing_or_off false found dc h = refl

  load-missing :
      (dc : DiskCache) (fs : Files) (key : CacheKey)
      → lookup (key_string outside key) (ensure_index outside dc fs).by_key ≡ none
      → (load outside dc fs key).0 ≡ none
  unfolding load load_at
  load-missing dc fs key missing = missing_or_off dc.enabled _ dc (ap (load_at outside fs) missing)

  -- After InvalidateComponent of a component, in a cache that is enabled, a Get of any key that the
  -- index had under it misses, whatever the files are by then.
  pub load-invalidate :
      (dc : DiskCache) (fs later : Files) (component : Text) (key : CacheKey)
      → dc.enabled ≡ true
      → holds (ensure_index outside dc fs).by_component component (key_string outside key) ≡ true
      → (load outside (invalidate outside dc fs component).0 later key).0 ≡ none
  unfolding ensure_index
  load-invalidate dc fs later component key on listed_ =
      let gone = left dc fs component in
      let k = key_string outside key in
      load-missing gone later key (
        ap (λ (d : DiskCache). lookup k d.by_key)
          (if_true gone.indexed gone _ (left-indexed dc fs component on))
        ∙ lookup-invalidate dc fs component k on
        ∙ if_true (holds (ensure_index outside dc fs).by_component component k) none _ listed_)
