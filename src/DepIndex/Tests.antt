-- ===== src/DepIndex/Tests.antt =====
-- The dependents of a file after a record, where paths are normal already.
use go_solid.Prelude.{text, text_comparable, [], ◌∷◌, lookup, insert, ◌≡◌, refl}
use go_solid.Collections.SetMap.{add, members, members_of, set_at}
use go_solid.DepIndex.{record_sources, dependents_of}

recorded :
    dependents_of
      (λ p. p)
      (record_sources (λ p. p) [] (text "Login") (text "/a.ts" ∷ text "/b.ts" ∷ []))
      (text "/b.ts")
    ≡ (text "Login" ∷ [])
unfolding record_sources dependents_of members_of members set_at add lookup insert
recorded = refl
