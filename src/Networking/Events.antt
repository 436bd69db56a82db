-- ===== src/Networking/Events.antt =====
-- shared/networking/events/events.go: the events, the categories that they implement, and the
-- ancestry that dispatch follows. EventType stands for the reflect.Type of each event or category,
-- and RType for any such type behind some number of pointers.
pub mod Ancestry
use go_solid.Prelude.{
  ℕ, zero, suc, Text, Option, none, some, List, [], ◌∷◌, ◌++◌, Bool, true, false, ◌&&◌, not, GoMap,
  lookup, insert, keep, map, length, ltb, leb, ◌==◌, Comparable, if◌then◌else◌, ◌≡◌, ◌↔◌, refl,
  arith, ap, sym, ◌∙◌,
}

pub data EventType : Type 0 where
  props_marshaling_failure registry_lookup_failure entry_generation_failure : EventType
  temp_entry_write_failure comp_bundling_failure comp_props_insufficient_failure : EventType
  anonymous_source_failure transmit_rendered_template : EventType
  development_failure_event failure_event success_event base_event : EventType

abbrev pub is_interface : EventType → Bool
is_interface development_failure_event = true
is_interface failure_event = true
is_interface success_event = true
is_interface base_event = true
is_interface _ = false

-- The types that embed failureBase, and the interfaces that ask for Err.
abbrev is_failure : EventType → Bool
is_failure transmit_rendered_template = false
is_failure success_event = false
is_failure base_event = false
is_failure _ = true

abbrev is_development : EventType → Bool
is_development comp_props_insufficient_failure = true
is_development anonymous_source_failure = true
is_development development_failure_event = true
is_development _ = false

abbrev is_success : EventType → Bool
is_success transmit_rendered_template = true
is_success success_event = true
is_success _ = false

-- t.Implements(c), by the methods of each type
unfoldable pub implements : EventType → EventType → Bool
implements t development_failure_event = is_development t
implements t failure_event = is_failure t
implements t success_event = is_success t
implements t base_event = true
implements t _ = false

abbrev rank : EventType → ℕ
rank props_marshaling_failure = 0
rank registry_lookup_failure = 1
rank entry_generation_failure = 2
rank temp_entry_write_failure = 3
rank comp_bundling_failure = 4
rank comp_props_insufficient_failure = 5
rank anonymous_source_failure = 6
rank transmit_rendered_template = 7
rank development_failure_event = 8
rank failure_event = 9
rank success_event = 10
rank base_event = 11

abbrev all_types : List EventType
all_types =
    props_marshaling_failure ∷ registry_lookup_failure ∷ entry_generation_failure
    ∷ temp_entry_write_failure ∷ comp_bundling_failure ∷ comp_props_insufficient_failure
    ∷ anonymous_source_failure ∷ transmit_rendered_template ∷ development_failure_event
    ∷ failure_event ∷ success_event ∷ base_event ∷ []

abbrev at_rank : List EventType → ℕ → EventType
at_rank [] n = base_event
at_rank (t ∷ ts) zero = t
at_rank (t ∷ ts) (suc n) = at_rank ts n

at_rank-rank : (t : EventType) → at_rank all_types (rank t) ≡ t
at_rank-rank base_event = refl
at_rank-rank _ = refl

abbrev pub type_eq : EventType → EventType → Bool
type_eq a b = rank a == rank b

pub type_eq_iff : (a b : EventType) → (type_eq a b ≡ true) ↔ (a ≡ b)
type_eq_iff a b = (
  λ h.
      let e : rank a ≡ rank b = ground arith in
      sym (at_rank-rank a) ∙ ap (at_rank all_types) e ∙ at_rank-rank b,
  λ e. rw e (ground arith),
)

instance abbrev pub event_type_comparable : Comparable EventType
event_type_comparable = record { same = type_eq; same_iff = type_eq_iff }

-- A type behind `pointers` pointers.
pub record RType : Type 0 where
  pub pointers : ℕ
  pub base : EventType

abbrev pub rtype_eq : RType → RType → Bool
rtype_eq a b = (a.pointers == b.pointers) && type_eq a.base b.base

pub rtype_eq_iff : (a b : RType) → (rtype_eq a b ≡ true) ↔ (a ≡ b)
rtype_eq_iff a b = ground (arith, type_eq_iff a.base b.base)

instance abbrev pub rtype_comparable : Comparable RType
rtype_comparable = record { same = rtype_eq; same_iff = rtype_eq_iff }

abbrev pub plain : EventType → RType
plain t = record { pointers = 0; base = t }

unfoldable pub deref : RType → RType
deref t = plain t.base

-- EVENTS.Concrete
abbrev pub concrete : List EventType
concrete =
    props_marshaling_failure ∷ registry_lookup_failure ∷ entry_generation_failure
    ∷ temp_entry_write_failure ∷ comp_bundling_failure ∷ comp_props_insufficient_failure
    ∷ transmit_rendered_template ∷ []

-- EVENTS.Categories
abbrev pub categories : List EventType
categories = development_failure_event ∷ failure_event ∷ success_event ∷ base_event ∷ []

-- EVENTS.Values
abbrev pub values : List EventType
values = concrete ++ categories

-- The types appended for one type before they are sorted.
unfoldable pub parents : EventType → List EventType
unfolding implements
parents t = t ∷ keep (λ c. not (type_eq c t) && implements t c) categories

-- slices.SortStableFunc by the number of parents, most first
unfoldable pub place : EventType → List EventType → List EventType
unfolding parents
place t [] = t ∷ []
place t (u ∷ us) =
    if leb (length (parents u)) (length (parents t)) then t ∷ u ∷ us else u ∷ place t us

unfoldable pub sort_by_parents : List EventType → List EventType
unfolding place
sort_by_parents [] = []
sort_by_parents (t ∷ ts) = place t (sort_by_parents ts)

unfoldable pub ancestry_of : List EventType → GoMap EventType (List EventType)
unfolding sort_by_parents
ancestry_of [] = []
ancestry_of (t ∷ ts) = (t, sort_by_parents (parents t)) ∷ ancestry_of ts

-- `ancestry`, as init leaves it
unfoldable pub ancestry : GoMap EventType (List EventType)
unfolding ancestry_of
ancestry = ancestry_of values

-- What an event carries: its dynamic type, httpCode, the text of Error, and Rendered.HTML.
pub record Event : Type 0 where
  pub dynamic : RType
  pub http_code : ℕ
  pub error_text : Text
  pub html : Text

-- HTTPCode of failureBase and of TransmitRenderedTemplateEvent
unfoldable pub http_code_of : Event → ℕ
http_code_of e =
    if e.http_code == 0 then (if is_failure e.dynamic.base then 500 else 200) else e.http_code

-- A type that the map does not hold has no ancestry, which is Go's nil slice.
unfoldable pub dynamic_ancestry : Event → List EventType
unfolding ancestry deref lookup
dynamic_ancestry e = elim (lookup (deref e.dynamic).base ancestry) [ none ↦ [] | some ts ↦ ts ]

-- The constructors of the failure events: New…Failure(err).
unfoldable pub new_failure : EventType → Text → Event
new_failure t err = record {
  dynamic = plain t;
  http_code = if is_development t then 500 else 0;
  error_text = err;
  html = [];
}

unfoldable pub new_transmit_rendered_template : Text → Event
new_transmit_rendered_template html = record {
  dynamic = plain transmit_rendered_template;
  http_code = 0;
  error_text = [];
  html = html;
}
