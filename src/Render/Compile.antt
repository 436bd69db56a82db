-- ===== src/Render/Compile.antt =====
-- compiledArtifact and bundleComponent of render.go, with FromDisk and searchCaches of bundler.go.
use go_solid.Prelude.{
  Text, text, text_eq, text_comparable, Option, none, some, List, [], ◌∷◌, ◌++◌, join,
  if◌then◌else◌,
}
use go_solid.Component.{Component}
use go_solid.Registry.{find, map_components}
use go_solid.Sources.{failed}
use go_solid.Caching.{Rendered, CacheKey, new_build_cache_key, safe_stem}
use go_solid.Caching.MemCache.{get, put}
use go_solid.DepIndex.{record_sources}
use go_solid.Networking.Events.{
  registry_lookup_failure, entry_generation_failure, temp_entry_write_failure,
  comp_bundling_failure,
}
use go_solid.CodeGen.{or_text, entry_data}
use go_solid.Render.{
  Bundle, DiskLayer, Engine, Settings, RenderData, World, Answer, done, Step, pure, ◌>>=◌,
}
use go_solid.Render.Steps.{or_report, unless, expanded}

module _ {D Props : Type 0} (disk : DiskLayer D) (engine : Engine Props) (settings : Settings) where
  -- The error of a component that is not registered
  unfoldable pub not_registered : World D → Text → Text
  not_registered w component =
      text "go_solid#Render: no component registered as "
      ++ engine.quote component
      ++ text " (have: "
      ++ join (text ", ") (map_components w.registry (λ name c. name))
      ++ text ")"

  -- FromDisk
  unfoldable pub from_disk : CacheKey → World D → Option Rendered × World D
  from_disk key w =
      let (found, after) = disk.load w.disk key in
      elim found [
        | none ↦ (none, record w { disk = after })
        | some cached ↦ (some cached, record w { disk = after; mem = put w.mem key cached })
      ]

  -- searchCaches
  unfoldable pub search_caches : CacheKey → World D → Option Rendered × World D
  unfolding from_disk
  search_caches key w = elim (get w.mem key) [
    | some cached ↦ (some cached, w)
    | none ↦ from_disk key w
  ]

  -- fmt.Sprintf("%s.%s.js", safeName, hashing.Short(content, 8))
  abbrev pub asset_name : Text → Text → Text → Text
  asset_name component content ext =
      safe_stem component ++ text "." ++ engine.short content 8 ++ ext

  -- The artifact that bundleComponent packages
  unfoldable pub package_bundle : Text → Bundle → Rendered
  package_bundle component bundle = record {
    html = [];
    css = bundle.css;
    js = bundle.js;
    css_name = if text_eq bundle.css [] then [] else asset_name component bundle.css (text ".css");
    js_name = asset_name component bundle.js (text ".js");
    data_islands = [];
  }

  -- The call of esbuild.BundleEntry
  unfoldable pub run_esbuild : RenderData Props → Text → Step D Bundle
  unfolding or_report
  run_esbuild call entry w =
      or_report call comp_bundling_failure
        (expanded (text "go_solid#Render: bundle " ++ engine.quote call.component ++ text ": ")
          (engine.bundle_entry entry))
        (record w { built = w.built ++ entry ∷ [] })

  -- What follows it
  unfoldable pub index_bundle : RenderData Props → Bundle → Step D (Rendered × List Text)
  unfolding package_bundle
  index_bundle call bundle w = (
    done (package_bundle call.component bundle, bundle.sources),
    record w { index = record_sources engine.normalize w.index call.component bundle.sources },
  )

  -- bundleComponent
  unfoldable pub bundle_component : RenderData Props → Component → Step D (Rendered × List Text)
  unfolding or_report run_esbuild index_bundle
  bundle_component call comp =
      if settings.generation_disabled
      then or_report call comp_bundling_failure (
          failed (
            text "go_solid#Render: bundling is disabled and "
            ++ engine.quote call.component
            ++ text " is not cached"))
      else do
        source ← or_report call entry_generation_failure (settings.sources.read comp.path)
        entry ← or_report call entry_generation_failure (entry_data engine.quote comp source)
        content ← or_report call entry_generation_failure (engine.js_template entry)
        path ← or_report call temp_entry_write_failure (engine.write_entry content)
        bundle ← run_esbuild call path
        index_bundle call bundle

  -- The writes to both caches; an error of the disk's is only logged.
  unfoldable pub keep_artifact : CacheKey → Rendered × List Text → Step D Rendered
  keep_artifact key (artifact, sources) w =
      let (after, error) = disk.store w.disk key artifact sources in
      (done artifact, record w { mem = put w.mem key artifact; disk = after })

  unfoldable pub build_artifact : RenderData Props → Component → CacheKey → Step D Rendered
  unfolding or_report bundle_component keep_artifact
  build_artifact call comp key = do
    verified ← or_report call registry_lookup_failure (unless comp (engine.verify_export comp))
    bundled ← bundle_component call verified
    keep_artifact key bundled

  abbrev pub use_or_build :
      RenderData Props
      → Component
      → CacheKey
      → Option Rendered × World D
      → Answer Rendered × World D
  use_or_build call comp key (some cached, w) = (done cached, w)
  use_or_build call comp key (none, w) = build_artifact call comp key w

  unfoldable pub cached_or_built : RenderData Props → Component → CacheKey → Step D Rendered
  unfolding search_caches build_artifact
  cached_or_built call comp key w = use_or_build call comp key (search_caches key w)

  -- The root that a render mounts on, where the component is registered.
  abbrev pub root_for : RenderData Props → Component → Text
  root_for call comp = or_text call.root comp.mount_root_id

  abbrev pub key_for : RenderData Props → Component → CacheKey
  key_for call comp = new_build_cache_key call.component (root_for call comp) settings.build_id

  -- compiledArtifact, with the root that it leaves in the renderData
  unfoldable pub compiled_artifact : RenderData Props → Step D (Text × Rendered)
  unfolding or_report cached_or_built
  compiled_artifact call w = elim (find w.registry call.component) [
    | none ↦ or_report call registry_lookup_failure (failed (not_registered w call.component)) w
    | some comp ↦
        (cached_or_built call comp (key_for call comp) >>= λ artifact.
        pure (root_for call comp, artifact))
          w
  ]
