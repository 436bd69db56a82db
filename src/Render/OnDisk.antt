-- ===== src/Render/OnDisk.antt =====
-- render.go with the cache of internal/caching/diskcache.go behind it, as New of bundler.go puts them
-- together.
use go_solid.Prelude.{
  Text, true, false, none, text_comparable, Option, none, some, Bool, lookup, if◌then◌else◌, ◌≡◌,
  arith,
}
use go_solid.Io.{File, Files}
use go_solid.Caching.{Rendered, CacheKey, key_comparable}
use go_solid.Caching.DiskCache.{
  DiskCache, Outside, Manifest, load, load_at, load_from, restore, restore_from, with_script,
  read_manifest, digests_hold,
}
use go_solid.Caching.DiskCache.Writing.{store}
use go_solid.Render.{DiskLayer, Engine, Settings, RenderData, World}
use go_solid.Render.Respond.{render0}
use go_solid.Render.Effects.{IsBare}
use go_solid.Render.Purity.{IsShared, IsBareLayer, render0-IsBare}

module _ (outside : Outside) (minify : Bool) where
  abbrev pub on_disk : DiskLayer (DiskCache × Files)
  on_disk = record {
    load = λ d key. let (found, dc) = load outside d.0 d.1 key in (found, (dc, d.1));
    store = λ d key artifact sources.
        let (dc, fs, fault) = store outside d.0 d.1 key minify artifact sources in
        ((dc, fs), fault);
  }

  if-IsBare :
      (b : Bool) (o p : Option Rendered) (r : Rendered)
      → (o ≡ some r → IsBare r)
      → (p ≡ some r → IsBare r)
      → (if b then o else p) ≡ some r
      → IsBare r
  if-IsBare true o p r h k e = h e
  if-IsBare false o p r h k e = k e

  with_script-IsBare :
      (man : Manifest) (styles : Text × Text) (js : Option File) (r : Rendered)
      → with_script outside man styles js ≡ some r
      → IsBare r
  with_script-IsBare man styles none r e = absurd (ground arith)
  with_script-IsBare man (css, css_name) (some js) r e = ground arith

  load_from-IsBare :
      (fs : Files) (path : Text) (read : Option Manifest) (r : Rendered)
      → load_from outside fs path read ≡ some r
      → IsBare r
  unfolding restore restore_from
  load_from-IsBare fs path none r e = absurd (ground arith)
  load_from-IsBare fs path (some man) r e =
      if-IsBare (digests_hold outside man.sources fs) _ none r (with_script-IsBare man _ _ r)
        (λ h. absurd (ground arith)) e

  load_at-IsBare :
      (fs : Files) (path : Option Text) (r : Rendered) → load_at outside fs path ≡ some r → IsBare r
  unfolding load_at
  load_at-IsBare fs none r e = absurd (ground arith)
  load_at-IsBare fs (some path) r e = load_from-IsBare fs path (read_manifest outside fs path) r e

  found-IsBare :
      (b : Bool) (found : Option Rendered × DiskCache) (dc : DiskCache) (r : Rendered)
      → (found.0 ≡ some r → IsBare r)
      → (if b then found else (none, dc)).0 ≡ some r
      → IsBare r
  found-IsBare true found dc r h e = h e
  found-IsBare false found dc r h e = absurd (ground arith)

  on_disk-IsBareLayer : IsBareLayer on_disk
  unfolding load
  on_disk-IsBareLayer d key r e = found-IsBare d.0.enabled _ d.0 r (load_at-IsBare d.1 _ r) e

  -- With the bundler's own cache on disk: if no artifact in the memory cache had HTML or data
  -- islands before a render, then an artifact that the memory cache holds after it has none,
  -- whatever the files, and whatever the render's props, middleware and answer.
  pub render0-on_disk-IsBare :
      {Props : Type 0} (engine : Engine Props) (settings : Settings) (call : RenderData Props)
      (w : World (DiskCache × Files))
      → IsShared w.mem
      → (key : CacheKey) (r : Rendered)
      → lookup key (render0 on_disk engine settings call w).1.mem.entries ≡ some r
      → IsBare r
  render0-on_disk-IsBare engine settings call w =
      render0-IsBare on_disk engine settings call w on_disk-IsBareLayer
