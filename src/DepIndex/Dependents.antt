-- ===== src/DepIndex/Dependents.antt =====
-- What Record of internal/depindex.go makes DependentsOf give.
use go_solid.Prelude.{
  Text, text_eq, text_comparable, List, [], ◌∷◌, ◌&&◌, ◌||◌, any, contains, ◌≡◌, arith,
}
use go_solid.Collections.SetMap.{add}
use go_solid.Collections.SetMap.Laws.{holds-add, members_of-members}
use go_solid.DepIndex.{DependencyIndex, record_sources, dependents_of}

module _ (normalize : Text → Text) where
  -- After Record, the dependents of a file are those that it had, and the component if one of the
  -- recorded sources is the same file, up to normalization.
  pub dependents_of-record_sources :
      (d : DependencyIndex) (component : Text) (sources : List Text) (file name : Text)
      → contains name (dependents_of normalize (record_sources normalize d component sources) file)
        ≡ (contains name (dependents_of normalize d file)
            || any (λ src. text_eq (normalize src) (normalize file)) sources
              && text_eq component name)
  unfolding record_sources dependents_of
  dependents_of-record_sources d component [] file name = ground arith
  dependents_of-record_sources d component (src ∷ sources) file name =
      let next = add d (normalize src) component in
      ground (
        arith,
        dependents_of-record_sources next component sources file name,
        members_of-members next (normalize file),
        members_of-members d (normalize file),
        holds-add d (normalize src) component (normalize file) name,
      )
