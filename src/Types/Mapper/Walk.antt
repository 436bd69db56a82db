-- ===== src/Types/Mapper/Walk.antt =====
-- internal/types/mapper.go: the functions that walk a Go type. A reflect.Type is a number that names
-- the type, and Reflect is what reflect tells of it. The map `seen` is passed down: each function
-- takes out what it puts in. `none` says that the fuel ran out.
use go_solid.Prelude.{
  ℕ, zero, suc, Text, text, text_eq, text_comparable, nat_comparable, Option, none, some, List, [],
  ◌∷◌, ◌++◌, Bool, true, false, not, ◌&&◌, ◌||◌, ltb, ◌==◌, all, contains, GoMap, lookup, insert,
  trim_suffix, if◌then◌else◌,
}
use go_solid.Types.Shape.{Field, new_shape}
use go_solid.Types.Mapper.{JsonField, pick_field, or_null, array_of, object_literal}
use go_solid.Types.Mapper.Tags.{JsonTag, parse_json_tag}

-- reflect.StructField, with the json tag that Tag.Lookup finds
pub record StructField : Type 0 where
  pub go_name : Text
  pub tag : Option Text
  pub go_type : ℕ
  pub anonymous : Bool
  pub exported : Bool

-- Kind, with Elem, Key and the fields. `integer` is the kinds that isIntegerKind names but Uint8;
-- `number` is Uintptr, Float32 and Float64; `unencodable` the kinds that json cannot encode.
pub data Kind : Type 0 where
  boolean integer uint8 number string interface unencodable : Kind
  pointer slice array : ℕ → Kind
  go_map : ℕ → ℕ → Kind
  struct : List StructField → Kind

-- What reflect tells, and the types that the mapper knows by name
pub record Reflect : Type 0 where
  pub kind : ℕ → Kind
  pub time : ℕ
  pub json_number : ℕ
  pub raw_message : ℕ
  pub raw_value : ℕ

infixl 5 ◌>>=◌
abbrev pub ◌>>=◌ : {A B : Type 0} → Option A → (A → Option B) → Option B
none >>= f = none
some a >>= f = f a

-- DEFAULT_MAX_DEPTH
abbrev pub default_max_depth : ℕ
default_max_depth = 12

-- maxDepth
unfoldable pub max_depth : ℕ → ℕ
max_depth configured = if ltb 0 configured then configured else default_max_depth

abbrev pub is_uint8 : Kind → Bool
is_uint8 uint8 = true
is_uint8 _ = false

-- isIntegerKind
abbrev pub is_integer_kind : Kind → Bool
is_integer_kind integer = true
is_integer_kind uint8 = true
is_integer_kind _ = false

abbrev pub is_string_kind : Kind → Bool
is_string_kind string = true
is_string_kind _ = false

abbrev pub is_struct_kind : Kind → Bool
is_struct_kind (struct fs) = true
is_struct_kind _ = false

abbrev pub struct_fields_of : Kind → List StructField
struct_fields_of (struct fs) = fs
struct_fields_of _ = []

-- The element of a pointer, or the type itself
abbrev pub elem_of_pointer : ℕ → Kind → ℕ
elem_of_pointer t (pointer e) = e
elem_of_pointer t _ = t

-- The map of the candidates by name
abbrev pub group_of : Option (List JsonField) → List JsonField
group_of none = []
group_of (some group) = group

abbrev pub group_at : Text → GoMap Text (List JsonField) → List JsonField
group_at name m = group_of (lookup name m)

unfoldable pub by_name : List JsonField → GoMap Text (List JsonField) → GoMap Text (List JsonField)
by_name [] m = m
by_name (c ∷ cs) m = by_name cs (insert c.field.name (group_at c.field.name m ++ c ∷ []) m)

abbrev pub onto_winners : Option JsonField → List Field → List Field
onto_winners none fs = fs
onto_winners (some w) fs = w.field ∷ fs

unfoldable pub winners_of : GoMap Text (List JsonField) → List Field
winners_of [] = []
winners_of ((name, group) ∷ m) = onto_winners (pick_field group) (winners_of m)

-- structFields from the candidates on
unfoldable pub winners : List JsonField → List Field
unfolding by_name winners_of
winners candidates = winners_of (by_name candidates [])

-- The functions that call one another: tsType, and collect with the fields that it appends
pub record Walk : Type 0 where
  pub ts : ℕ → ℕ → List ℕ → Option Text
  pub collected : ℕ → ℕ → ℕ → List ℕ → Option (List JsonField)

module _ (r : Reflect) (configured : ℕ) where
  -- structFields
  unfoldable pub struct_fields : Walk → ℕ → ℕ → List ℕ → Option (List Field)
  unfolding max_depth winners
  struct_fields w t depth seen =
      if ltb (max_depth configured) depth || contains t seen
      then some []
      else (w.collected t depth 0 (t ∷ seen) >>= λ candidates. some (winners candidates))

  -- canEncodeEmpty
  abbrev pub empty_kind : Walk → ℕ → ℕ → List ℕ → Kind → Option Bool
  empty_kind w t depth seen string = some true
  empty_kind w t depth seen (slice e) = some true
  empty_kind w t depth seen (array e) = some true
  empty_kind w t depth seen (go_map k e) = some true
  empty_kind w t depth seen (pointer e) = some true
  empty_kind w t depth seen interface = some true
  empty_kind w t depth seen (struct fs) =
      struct_fields w t depth seen >>= λ fields. some (all (λ f. f.optional) fields)
  empty_kind w t depth seen _ = some false

  unfoldable pub can_encode_empty : Walk → ℕ → ℕ → List ℕ → Option Bool
  unfolding struct_fields
  can_encode_empty w t depth seen =
      if t == r.time || t == r.json_number
      then some false
      else if t == r.raw_message || t == r.raw_value
      then some true
      else empty_kind w t depth seen (r.kind t)

  -- fieldType
  unfoldable pub field_type : Walk → ℕ → JsonTag → ℕ → List ℕ → Option (Text × Bool)
  unfolding can_encode_empty
  field_type w t tag depth seen = w.ts t depth seen >>= λ ts.
      (if tag.omit_zero
        then some true
        else if tag.omit_empty
        then can_encode_empty w t depth seen
        else some false)
      >>= λ optional.
          some (if optional then (trim_suffix ts (text " | null"), true) else (ts, false))

  -- A field that the walk leaves out before it looks at its type
  abbrev pub is_hidden : StructField → Kind → Bool
  is_hidden sf k = not sf.exported && not (sf.anonymous && is_struct_kind k)

  -- A field that is not flattened, of the type that fieldType writes
  abbrev pub candidate : StructField → JsonTag → ℕ → Text × Bool → JsonField
  candidate sf tag embed_depth (ts, optional) = record {
    field = record {
      name = if text_eq tag.name [] then sf.go_name else tag.name;
      ts = ts;
      optional = optional;
    };
    depth = embed_depth;
    tagged = tag.has_name;
  }

  abbrev pub own_field : Walk → ℕ → ℕ → List ℕ → StructField → JsonTag → Option (List JsonField)
  own_field w depth embed_depth seen sf tag =
      field_type w sf.go_type tag (suc depth) seen >>= λ typed.
      some (candidate sf tag embed_depth typed ∷ [])

  -- The fields of an embedded struct
  abbrev pub promoted : Walk → ℕ → ℕ → List ℕ → ℕ → Option (List JsonField)
  promoted w depth embed_depth seen ft =
      if contains ft seen then some [] else w.collected ft depth (suc embed_depth) (ft ∷ seen)

  abbrev pub is_flattened : StructField → JsonTag → Kind → Bool
  is_flattened sf tag k = is_struct_kind k && (sf.anonymous && not tag.has_name || tag.embed)

  abbrev pub visible_field :
      Walk → ℕ → ℕ → List ℕ → StructField → JsonTag → ℕ → Option (List JsonField)
  visible_field w depth embed_depth seen sf tag ft =
      if is_flattened sf tag (r.kind ft)
      then promoted w depth embed_depth seen ft
      else own_field w depth embed_depth seen sf tag

  -- One turn of collect's loop
  unfoldable pub collect_field : Walk → ℕ → ℕ → List ℕ → StructField → Option (List JsonField)
  unfolding parse_json_tag field_type
  collect_field w depth embed_depth seen sf =
      let tag = parse_json_tag sf.tag in
      let ft = elem_of_pointer sf.go_type (r.kind sf.go_type) in
      if tag.ignored || is_hidden sf (r.kind ft)
      then some []
      else visible_field w depth embed_depth seen sf tag ft

  -- collect
  unfoldable pub collect : Walk → ℕ → ℕ → List ℕ → List StructField → Option (List JsonField)
  unfolding collect_field
  collect w depth embed_depth seen [] = some []
  collect w depth embed_depth seen (sf ∷ sfs) = collect_field w depth embed_depth seen sf >>= λ own.
      collect w depth embed_depth seen sfs >>= λ rest. some (own ++ rest)

  -- tsType
  abbrev pub ts_kind : Walk → ℕ → ℕ → List ℕ → Kind → Option Text
  ts_kind w t depth seen (pointer e) = w.ts e depth seen >>= λ ts. some (or_null ts)
  ts_kind w t depth seen boolean = some (text "boolean")
  ts_kind w t depth seen integer = some (text "number")
  ts_kind w t depth seen uint8 = some (text "number")
  ts_kind w t depth seen number = some (text "number")
  ts_kind w t depth seen string = some (text "string")
  ts_kind w t depth seen (slice e) =
      if is_uint8 (r.kind e)
      then some (text "string")
      else (w.ts e depth seen >>= λ ts. some (array_of ts))
  ts_kind w t depth seen (array e) = w.ts e depth seen >>= λ ts. some (array_of ts)
  ts_kind w t depth seen (go_map k e) =
      if not (is_string_kind (r.kind k)) && not (is_integer_kind (r.kind k))
      then some (text "unknown")
      else (w.ts e depth seen >>= λ ts. some (text "Record<string, " ++ ts ++ text ">"))
  ts_kind w t depth seen (struct fs) =
      if ltb (max_depth configured) depth || contains t seen
      then some (text "unknown")
      else (struct_fields w t depth seen >>= λ fields. some (object_literal (new_shape fields)))
  ts_kind w t depth seen _ = some (text "unknown")

  unfoldable pub ts_type : Walk → ℕ → ℕ → List ℕ → Option Text
  unfolding struct_fields max_depth
  ts_type w t depth seen =
      if t == r.time
      then some (text "string")
      else if t == r.json_number
      then some (text "number")
      else if t == r.raw_message || t == r.raw_value
      then some (text "unknown")
      else ts_kind w t depth seen (r.kind t)

  -- The walk, down to a depth of calls
  unfoldable pub walk : ℕ → Walk
  unfolding ts_type collect
  walk zero = record { ts = λ t d s. none; collected = λ t d e s. none }
  walk (suc fuel) =
      let below = walk fuel in
      record {
        ts = ts_type below;
        collected = λ t d e s. collect below d e s (struct_fields_of (r.kind t));
      }
