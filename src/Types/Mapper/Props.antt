-- ===== src/Types/Mapper/Props.antt =====
-- ShapeOfType and ShapeOfValue of internal/types/mapper.go. A reflect.Value is what these read of it.
use go_solid.Prelude.{
  ℕ, zero, suc, Text, text, Option, none, some, List, [], ◌∷◌, Bool, true, false, if◌then◌else◌,
}
use go_solid.Types.Shape.{Field, Shape, new_shape}
use go_solid.Types.Mapper.Walk.{
  Kind, interface, unencodable, pointer, struct, Reflect, Walk, ◌>>=◌, is_string_kind,
  struct_fields,
}

-- ErrNoProps, ErrNotAnObject and ErrUnmarshalable
pub data ShapeError : Type 0 where
  no_props not_an_object_error unmarshalable : ShapeError

pub data Shaped : Type 0 where
  shaped : Shape → Shaped
  refused : ShapeError → Shaped

-- What reflect tells of a value. Values have numbers, since a pointer or an interface may lead back to itself:
-- a pointer or an interface is `behind` the number of its element; a map has its key's and its
-- element's type, and for each key the type of the value in hand, or none for nil.
pub data Value : Type 0 where
  nil_value : Value
  behind : ℕ → Value
  struct_value : ℕ → Value
  map_value : ℕ → ℕ → List (Text × Option ℕ) → Value
  other_value : ℕ → Value

abbrev pub is_interface : Kind → Bool
is_interface interface = true
is_interface _ = false

module _ (r : Reflect) (configured : ℕ) where
  -- notAnObject
  unfoldable pub not_an_object : ℕ → ShapeError
  not_an_object t = elim (r.kind t) [ unencodable ↦ unmarshalable | _ ↦ not_an_object_error ]

  -- ShapeOfType, on a type that is not nil: its loop over pointers, and what follows
  abbrev pub shape_of_kind : (ℕ → Option Shaped) → Walk → ℕ → Kind → Option Shaped
  shape_of_kind strip w t (pointer e) = strip e
  shape_of_kind strip w t (struct fs) =
      struct_fields r configured w t 0 [] >>= λ fields. some (shaped (new_shape fields))
  shape_of_kind strip w t _ = some (refused (not_an_object t))

  unfoldable pub shape_of_type : ℕ → Walk → ℕ → Option Shaped
  unfolding not_an_object struct_fields
  shape_of_type zero w t = none
  shape_of_type (suc fuel) w t = shape_of_kind (shape_of_type fuel w) w t (r.kind t)

  -- One key of shapeOfMap whose element type is an interface
  abbrev pub dynamic_field : Walk → Text × Option ℕ → Option Field
  dynamic_field w (name, none) =
      some (record { name = name; ts = text "unknown"; optional = false })
  dynamic_field w (name, some t) =
      w.ts t 1 [] >>= λ ts. some (record { name = name; ts = ts; optional = false })

  abbrev pub dynamic_fields : Walk → List (Text × Option ℕ) → Option (List Field)
  dynamic_fields w [] = some []
  dynamic_fields w (entry ∷ entries) =
      dynamic_field w entry >>= λ f. dynamic_fields w entries >>= λ fs. some (f ∷ fs)

  abbrev pub static_fields : Text → List (Text × Option ℕ) → List Field
  static_fields ts [] = []
  static_fields ts ((name, t) ∷ entries) =
      record { name = name; ts = ts; optional = false } ∷ static_fields ts entries

  -- shapeOfMap
  unfoldable pub shape_of_map : Walk → ℕ → ℕ → List (Text × Option ℕ) → Option Shaped
  shape_of_map w key elem entries =
      if is_string_kind (r.kind key)
      then ((if is_interface (r.kind elem)
            then dynamic_fields w entries
            else (w.ts elem 1 [] >>= λ ts. some (static_fields ts entries)))
          >>= λ fields. some (shaped (new_shape fields)))
      else some (refused not_an_object_error)

  -- ShapeOfValue: what it does with a value, and its loop, whose rounds are counted
  abbrev pub shape_at : (ℕ → Option Shaped) → ℕ → Walk → Value → Option Shaped
  shape_at next fuel w nil_value = some (refused no_props)
  shape_at next fuel w (behind v) = next v
  shape_at next fuel w (struct_value t) = shape_of_type fuel w t
  shape_at next fuel w (map_value key elem entries) = shape_of_map w key elem entries
  shape_at next fuel w (other_value t) = some (refused (not_an_object t))

  unfoldable pub shape_of_value : (ℕ → Value) → ℕ → ℕ → Walk → ℕ → Option Shaped
  unfolding shape_of_type shape_of_map not_an_object
  shape_of_value values zero fuel w v = none
  shape_of_value values (suc rounds) fuel w v =
      shape_at (shape_of_value values rounds fuel w) fuel w (values v)
