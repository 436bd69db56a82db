-- ===== src/Bundler.antt =====
-- bundler.go: the invalidation that New wires to the watchers, over the registry, the caches and the
-- dependency index. The caches of the type checker and of the server-side renderer are T, with what
-- their Invalidate makes of them.
pub mod Invalidation
mod Tests
use go_solid.Prelude.{Text, text_comparable, Option, none, some, List, [], ◌∷◌}
use go_solid.Io.{Files}
use go_solid.Caching.MemCache.{MemCache, components_in_file, invalidate_component}
use go_solid.Caching.DiskCache.{DiskCache, Outside, disk_components_in_file}
use go_solid.Caching.DiskCache.Writing.{invalidate}
use go_solid.DepIndex.{DependencyIndex, dependents_of}
use go_solid.Registry.{Registry, name_for_file}

pub record Bundler (T : Type 0) : Type 0 where
  pub registry : Registry
  pub mem : MemCache
  pub disk : DiskCache
  pub files : Files
  pub index : DependencyIndex
  pub checked : T

module _ {T : Type 0} (outside : Outside) (rel : Text → Text → Option Text)
    (forget : Text → T → T) where
  -- invalidateComponent
  unfoldable pub invalidate_one : Bundler T → Text → Bundler T
  unfolding invalidate invalidate_component
  invalidate_one b name =
      let (disk, files) = invalidate outside b.disk b.files name in
      record b {
        disk = disk;
        files = files;
        mem = invalidate_component b.mem name;
        checked = forget name b.checked;
      }

  -- A loop that calls invalidateComponent
  unfoldable pub invalidate_each : List Text → Bundler T → Bundler T
  unfolding invalidate_one
  invalidate_each [] b = b
  invalidate_each (name ∷ names) b = invalidate_each names (invalidate_one b name)

  -- The second loop of invalidateComponentFile
  unfoldable pub invalidate_on_disk : Bundler T → Text → Bundler T
  unfolding invalidate_each disk_components_in_file
  invalidate_on_disk b file =
      let (names, disk) = disk_components_in_file outside b.disk b.files file in
      invalidate_each names (record b { disk = disk })

  -- invalidateComponentFile
  unfoldable pub invalidate_component_file : Bundler T → Text → Bundler T
  unfolding invalidate_each invalidate_on_disk
  invalidate_component_file b file =
      invalidate_one (invalidate_on_disk (invalidate_each (components_in_file b.mem file) b) file)
        file

  abbrev pub invalidate_named : Bundler T → Option Text → Bundler T
  invalidate_named b none = b
  invalidate_named b (some file) = invalidate_component_file b file

  -- invalidateForSource
  unfoldable pub invalidate_for_source : Bundler T → Text → Bundler T
  unfolding invalidate_each invalidate_component_file
  invalidate_for_source b path =
      let after = invalidate_each (dependents_of outside.normalize b.index path) b in
      invalidate_named after (name_for_file rel after.registry path)
