-- ===== src/Networking/Events/Ancestry.antt =====
-- The ancestry that shared/networking/events/events.go builds at init.
use go_solid.Prelude.{
  List, [], ◌∷◌, none, some, All, contains, lookup, ◌&&◌, ◌||◌, true, ◌≡◌, arith,
}
use go_solid.Networking.Events.{
  EventType, Event, anonymous_source_failure, base_event, type_eq, event_type_comparable,
  implements, values, categories, dynamic_ancestry, ancestry,
}

-- Each type implements every type after it: the narrowest comes first.
abbrev pub IsNarrowing : List EventType → Type 0
IsNarrowing [] = Unit
IsNarrowing (t ∷ ts) = All (λ u. implements t u ≡ true) ts × IsNarrowing ts

-- The types that dispatch follows for a type.
abbrev pub ancestors : EventType → List EventType
ancestors t = elim (lookup t ancestry) [ none ↦ [] | some ts ↦ ts ]

ancestors-IsNarrowing : (t : EventType) → IsNarrowing (ancestors t)
unfolding ancestry lookup implements
ancestors-IsNarrowing base_event = ground arith
ancestors-IsNarrowing _ = ground arith

-- For every registered type the ancestry holds the type itself and exactly the categories that it
-- implements, the narrowest first.
pub ancestors-implements :
    (t u : EventType)
    → contains t values ≡ true
    → IsNarrowing (ancestors t)
      × (contains u (ancestors t) ≡ (type_eq u t || contains u categories && implements t u))
unfolding ancestry lookup implements
ancestors-implements anonymous_source_failure u h = cc
ancestors-implements base_event u h = (ancestors-IsNarrowing base_event, ground arith)
ancestors-implements t u h = (ancestors-IsNarrowing t, ground arith)

-- The failure of an inline component is not registered: it has no ancestry, not even itself.
pub anonymous-ancestry :
    (e : Event) → e.dynamic.base ≡ anonymous_source_failure → dynamic_ancestry e ≡ []
unfolding dynamic_ancestry
anonymous-ancestry e h = rw h
