-- ===== src/Types/Mapper/Answers.antt =====
-- internal/types/mapper.go: which props ShapeOfValue answers for.
use go_solid.Prelude.{
  ℕ, zero, suc, ◌+◌, ◌*◌, ◌<◌, Text, Option, none, some, List, [], ◌∷◌, true, false, ◌||◌, ◌==◌,
  Bool, is_some, if◌then◌else◌, All, ◌≡◌, refl, sym, subst, arith,
}
use go_solid.Types.Shape.{new_shape}
use go_solid.Types.Mapper.Walk.{
  Kind, pointer, slice, struct, Reflect, Walk, ◌>>=◌, is_string_kind, walk, ts_type,
}
use go_solid.Types.Mapper.Props.{
  shaped, refused, not_an_object_error, Value, nil_value, behind, struct_value, map_value,
  other_value, is_interface, shape_of_type, shape_of_kind, dynamic_fields, static_fields,
  shape_of_map, shape_at, shape_of_value, Shaped,
}
use go_solid.Types.Mapper.Termination.{
  IsFinite, Returns, returns, bind-Returns, if-Returns, IsTotal, walk-IsTotal, struct_fields_total,
  unseen, unseen-nil,
}

-- The type of the value that a map's entry holds
abbrev pub held : Text × Option ℕ → List ℕ
held (name, none) = []
held (name, some t) = t ∷ []

-- The types that a value has in hand are among those below n.
abbrev pub Within : ℕ → Value → Type 0
Within n nil_value = Unit
Within n (behind v) = Unit
Within n (struct_value t) = t < n
Within n (map_value key elem entries) =
    (elem < n) × All (λ entry. All (λ t. t < n) (held entry)) entries
Within n (other_value t) = Unit

-- The loop of ShapeOfValue is at its end within so many rounds: pointers and interfaces lead to something else.
abbrev pub ends_at : (ℕ → Bool) → Value → Bool
ends_at next (behind v) = next v
ends_at next _ = true

abbrev pub ends_in : (ℕ → Value) → ℕ → ℕ → Bool
ends_in values zero v = false
ends_in values (suc rounds) v = ends_at (ends_in values rounds) (values v)

Returns-is_some : {A : Type 0} (o : Option A) → Returns o → is_some o ≡ true
Returns-is_some o (returns a) = refl

module _ (r : Reflect) (configured n : ℕ) (rank : ℕ → ℕ) (top : ℕ)
    (fin : IsFinite r n rank top) where
  module _ (w : Walk) (room : ℕ) (total : IsTotal r configured n rank top fin w room)
      (enough : n * (top + 3) + top + 1 < room) where
    unseen_room : unseen n [] * (top + 3) + top + 1 < room
    unseen_room = subst (λ u. u * (top + 3) + top + 1 < room) (sym (unseen-nil n)) enough

    shape_of_kind-Returns :
        (fuel : ℕ)
        → ((e : ℕ) → e < n → rank e < fuel → Returns (shape_of_type r configured fuel w e))
        → (t : ℕ) (k : Kind) → r.kind t ≡ k
        → t < n
        → rank t < suc fuel
        → Returns (shape_of_kind r configured (shape_of_type r configured fuel w) w t k)
    shape_of_kind-Returns fuel strip t (pointer e) same inside low =
        let (elem_inside, lower) = fin.of_pointer t e same inside in
        strip e elem_inside (omega arith)
    shape_of_kind-Returns fuel strip t (struct fs) same inside low =
        bind-Returns _ _
          (struct_fields_total r configured n rank top fin w room total t 0 [] inside
            (omega (arith, unseen_room)))
          (λ fields. returns _)
    shape_of_kind-Returns fuel strip t k same inside low = returns _

    shape_of_type-Returns :
        (fuel t : ℕ) → t < n → rank t < fuel → Returns (shape_of_type r configured fuel w t)
    unfolding shape_of_type
    shape_of_type-Returns zero t inside low = absurd (omega arith)
    shape_of_type-Returns (suc fuel) t inside low =
        shape_of_kind-Returns fuel (shape_of_type-Returns fuel) t (r.kind t) refl inside low

    typed_at_start : (t depth : ℕ) → t < n → Returns (w.ts t depth [])
    typed_at_start t depth inside =
        total.typed t depth [] inside (omega (arith, unseen_room, fin.ranked t))

    dynamic_fields-Returns :
        (entries : List (Text × Option ℕ))
        → All (λ entry. All (λ t. t < n) (held entry)) entries
        → Returns (dynamic_fields r configured w entries)
    dynamic_fields-Returns [] inside = returns []
    dynamic_fields-Returns ((name, none) ∷ entries) inside =
        bind-Returns _ _ (dynamic_fields-Returns entries inside.1) (λ fs. returns _)
    dynamic_fields-Returns ((name, some t) ∷ entries) inside =
        bind-Returns _ _ (bind-Returns _ _ (typed_at_start t 1 inside.0.0) (λ ts. returns _))
          (λ f. bind-Returns _ _ (dynamic_fields-Returns entries inside.1) (λ fs. returns _))

    shape_of_map-Returns :
        (key elem : ℕ) (entries : List (Text × Option ℕ))
        → elem < n
        → All (λ entry. All (λ t. t < n) (held entry)) entries
        → Returns (shape_of_map r configured w key elem entries)
    unfolding shape_of_map
    shape_of_map-Returns key elem entries inside each =
        let static =
          w.ts elem 1 [] >>= λ (ts : Text). some (static_fields r configured ts entries) in
        let fields =
          if is_interface (r.kind elem) then dynamic_fields r configured w entries else static in
        if-Returns (is_string_kind (r.kind key)) (fields >>= λ fs. some (shaped (new_shape fs)))
          (some (refused not_an_object_error))
          (λ e.
            bind-Returns fields _
              (if-Returns (is_interface (r.kind elem)) _ _
                (λ f. dynamic_fields-Returns entries each)
                (λ f. bind-Returns _ _ (typed_at_start elem 1 inside) (λ ts. returns _)))
              (λ fs. returns _))
          (λ e. returns _)

    shape_at-ends :
        (fuel : ℕ) (next : ℕ → Option Shaped) (ending : ℕ → Bool) (v : Value)
        → top < fuel
        → Within n v
        → ((u : ℕ) → is_some (next u) ≡ ending u)
        → is_some (shape_at r configured next fuel w v) ≡ ends_at ending v
    shape_at-ends fuel next ending nil_value low inside ih = refl
    shape_at-ends fuel next ending (behind v) low inside ih = ih v
    shape_at-ends fuel next ending (struct_value t) low inside ih =
        Returns-is_some _ (shape_of_type-Returns fuel t inside (omega (arith, fin.ranked t)))
    shape_at-ends fuel next ending (map_value key elem entries) low inside ih =
        Returns-is_some _ (shape_of_map-Returns key elem entries inside.0 inside.1)
    shape_at-ends fuel next ending (other_value t) low inside ih = refl

    shape_of_value-ends :
        (values : ℕ → Value) (rounds fuel v : ℕ)
        → top < fuel
        → ((u : ℕ) → Within n (values u))
        → is_some (shape_of_value r configured values rounds fuel w v) ≡ ends_in values rounds v
    unfolding shape_of_value
    shape_of_value-ends values zero fuel v low inside = refl
    shape_of_value-ends values (suc rounds) fuel v low inside =
        shape_at-ends fuel (shape_of_value r configured values rounds fuel w)
          (ends_in values rounds) (values v) low (inside v)
          (λ u. shape_of_value-ends values rounds fuel u low inside)

-- In a program with n types in which no pointer, slice, array or map is built, through such types alone, from
-- itself: ShapeOfValue answers for a value exactly if its loop ends, in the number of rounds in which pointers
-- and interfaces lead from the value to something else. A number of nested calls that depends on the
-- types alone is enough, whatever MaxDepth is set to, also where structs contain or embed themselves.
pub shape_of_value-answers :
    (r : Reflect) (configured n : ℕ) (rank : ℕ → ℕ) (top fuel rounds : ℕ) (values : ℕ → Value)
    (v : ℕ)
    → IsFinite r n rank top
    → ((u : ℕ) → Within n (values u))
    → n * (top + 3) + top + 1 < fuel
    → is_some (shape_of_value r configured values rounds fuel (walk r configured fuel) v)
      ≡ ends_in values rounds v
shape_of_value-answers r configured n rank top fuel rounds values v fin inside enough =
    shape_of_value-ends r configured n rank top fin (walk r configured fuel) fuel
      (walk-IsTotal r configured n rank top fin fuel) enough values rounds fuel v (omega arith)
      inside

-- A slice type that is its own element, as Go allows it, and that is none of the types with a name of their own:
-- no number of nested calls of tsType is enough.
pub ts-endless :
    (r : Reflect) (configured fuel t depth : ℕ) (seen : List ℕ)
    → r.kind t ≡ slice t
    → (t == r.time || t == r.json_number || t == r.raw_message || t == r.raw_value) ≡ false
    → (walk r configured fuel).ts t depth seen ≡ none
unfolding walk ts_type
ts-endless r configured zero t depth seen same own = refl
ts-endless r configured (suc fuel) t depth seen same own =
    ground (arith, ts-endless r configured fuel t depth seen same own)
