-- ===== src/DepIndex.antt =====
-- internal/depindex.go: which components depend on a source file. The lock is not modelled.
-- `normalize` is esbuild.NormalizeSourcePath, which asks the process for its working directory.
pub mod Dependents
mod Tests
use go_solid.Prelude.{Text, text_comparable, List, [], ◌∷◌}
use go_solid.Collections.SetMap.{SetMap, add, members_of}

abbrev pub DependencyIndex : Type 0
DependencyIndex = SetMap Text Text

module _ (normalize : Text → Text) where
  -- Record
  unfoldable pub record_sources : DependencyIndex → Text → List Text → DependencyIndex
  record_sources d component [] = d
  record_sources d component (src ∷ sources) =
      record_sources (add d (normalize src) component) component sources

  unfoldable pub dependents_of : DependencyIndex → Text → List Text
  dependents_of d source = members_of d (normalize source)
