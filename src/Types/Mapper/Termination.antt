-- ===== src/Types/Mapper/Termination.antt =====
-- internal/types/mapper.go: the walk of a Go type ends, where types other than structs are built up
-- from smaller ones, and does not end on a type that is its own element.
use go_solid.Prelude.{
  ℕ, zero, suc, ◌+◌, ◌*◌, ◌≤◌, ◌<◌, Text, text, Option, some, List, [], ◌∷◌, Bool, true, false,
  ◌||◌, ltb, ◌==◌, contains, nat_comparable, if◌then◌else◌, ◌≡◌, refl, arith, inl, inr, Bool-cases,
  All,
}
use go_solid.Types.Shape.{Field, new_shape}
use go_solid.Types.Mapper.{object_literal}
use go_solid.Types.Mapper.Tags.{JsonTag, parse_json_tag}
use go_solid.Types.Mapper.Walk.{
  StructField, Kind, pointer, slice, array, go_map, struct, Reflect, Walk, ◌>>=◌, struct_fields_of,
  elem_of_pointer, max_depth, struct_fields, can_encode_empty, field_type, own_field, promoted,
  is_hidden, is_flattened, visible_field, collect_field, collect, ts_type, ts_kind, empty_kind,
  walk,
}

-- How many of the types below n a walk has not entered
pub unseen : ℕ → List ℕ → ℕ
unseen zero seen = 0
unseen (suc n) seen = if contains n seen then unseen n seen else suc (unseen n seen)

pub unseen-nil : (n : ℕ) → unseen n [] ≡ n
unfolding unseen
unseen-nil zero = refl
unseen-nil (suc n) = ground (arith, unseen-nil n)

unseen-le : (n t : ℕ) (seen : List ℕ) → unseen n (t ∷ seen) ≤ unseen n seen
unfolding unseen
unseen-le zero t seen = omega arith
unseen-le (suc n) t seen = ground (arith, unseen-le n t seen)

unseen-lt :
    (n t : ℕ) (seen : List ℕ)
    → t < n
    → contains t seen ≡ false
    → unseen n (t ∷ seen) < unseen n seen
unfolding unseen
unseen-lt zero t seen h new = absurd (omega arith)
unseen-lt (suc n) t seen h new = elim (Bool-cases (n == t)) [
  | inl same ↦ ground (arith, unseen-le n t seen)
  | inr other ↦ ground (arith, unseen-lt n t seen)
]

-- The types of a program: those that a type below n names are below n, and a pointer, slice, array or
-- map has an element of lower rank.
pub record IsFinite (r : Reflect) (n : ℕ) (rank : ℕ → ℕ) (top : ℕ) : Type 0 where
  pub ranked : (t : ℕ) → rank t ≤ top
  pub named :
      (t : ℕ)
      → t < n
      → (fs : List StructField) → r.kind t ≡ struct fs
      → All (λ sf. sf.go_type < n) fs
  pub of_pointer : (t e : ℕ) → r.kind t ≡ pointer e → t < n → (e < n) × (rank e < rank t)
  pub of_slice : (t e : ℕ) → r.kind t ≡ slice e → t < n → (e < n) × (rank e < rank t)
  pub of_array : (t e : ℕ) → r.kind t ≡ array e → t < n → (e < n) × (rank e < rank t)
  pub of_map : (t k e : ℕ) → r.kind t ≡ go_map k e → t < n → (e < n) × (rank e < rank t)

-- A call that has not run out of fuel
pub data Returns {A : Type 0} : Option A → Type 0 where
  returns : (a : A) → Returns (some a)

pub bind-Returns :
    {A B : Type 0} (o : Option A) (f : A → Option B)
    → Returns o
    → ((a : A) → Returns (f a))
    → Returns (o >>= f)
bind-Returns o f (returns a) k = k a

below_product : (s u v : ℕ) → u < v → u * s + s ≤ v * s
below_product s u v h = grind arith

pub if-Returns :
    {A : Type 0} (b : Bool) (x y : Option A)
    → (b ≡ true → Returns x)
    → (b ≡ false → Returns y)
    → Returns (if b then x else y)
if-Returns true x y h k = h refl
if-Returns false x y h k = k refl

or_false : (a b : Bool) → (a || b) ≡ false → (a ≡ false) × (b ≡ false)
or_false a b h = ground arith

module _ (r : Reflect) (configured n : ℕ) (rank : ℕ → ℕ) (top : ℕ)
    (fin : IsFinite r n rank top) where
  -- The calls that a walk of a given fuel answers
  pub record IsTotal (w : Walk) (fuel : ℕ) : Type 0 where
    pub typed :
        (t depth : ℕ) (seen : List ℕ)
        → t < n
        → unseen n seen * (top + 3) + rank t < fuel
        → Returns (w.ts t depth seen)
    pub gathered :
        (t depth embed_depth : ℕ) (seen : List ℕ)
        → t < n
        → unseen n seen * (top + 3) + top + 1 < fuel
        → Returns (w.collected t depth embed_depth seen)

  module _ (w : Walk) (fuel : ℕ) (total : IsTotal w fuel) where
    entered :
        (t depth embed_depth : ℕ) (seen : List ℕ)
        → t < n
        → contains t seen ≡ false
        → unseen n seen * (top + 3) ≤ suc fuel
        → Returns (w.collected t depth embed_depth (t ∷ seen))
    entered t depth embed_depth seen inside new room =
        total.gathered t depth embed_depth (t ∷ seen) inside (
          omega (
            arith,
            below_product (top + 3) (unseen n (t ∷ seen)) (unseen n seen)
                (unseen-lt n t seen inside new),
          ))

    pub struct_fields_total :
        (t depth : ℕ) (seen : List ℕ)
        → t < n
        → unseen n seen * (top + 3) ≤ suc fuel
        → Returns (struct_fields r configured w t depth seen)
    unfolding struct_fields
    struct_fields_total t depth seen inside room =
        if-Returns _ _ _ (λ e. returns _)
          (λ e.
            bind-Returns _ _
              (entered t depth 0 seen inside
                (or_false (ltb (max_depth configured) depth) (contains t seen) e).1 room)
              (λ a. returns _))

    empty_kind_total :
        (t depth : ℕ) (seen : List ℕ) (k : Kind)
        → t < n
        → unseen n seen * (top + 3) ≤ suc fuel
        → Returns (empty_kind r configured w t depth seen k)
    empty_kind_total t depth seen (struct fs) inside room =
        bind-Returns _ _ (struct_fields_total t depth seen inside room) (λ a. returns _)
    empty_kind_total t depth seen k inside room = returns _

    can_encode_empty_total :
        (t depth : ℕ) (seen : List ℕ)
        → t < n
        → unseen n seen * (top + 3) ≤ suc fuel
        → Returns (can_encode_empty r configured w t depth seen)
    unfolding can_encode_empty
    can_encode_empty_total t depth seen inside room =
        let rest = empty_kind r configured w t depth seen (r.kind t) in
        let raw = t == r.raw_message || t == r.raw_value in
        if-Returns (t == r.time || t == r.json_number) (some false)
          (if raw then some true else rest) (λ e. returns false)
          (λ e.
            if-Returns raw (some true) rest (λ f. returns true)
              (λ f. empty_kind_total t depth seen (r.kind t) inside room))

    field_type_total :
        (t : ℕ) (tag : JsonTag) (depth : ℕ) (seen : List ℕ)
        → t < n
        → unseen n seen * (top + 3) + top + 1 ≤ fuel
        → Returns (field_type r configured w t tag depth seen)
    unfolding field_type
    field_type_total t tag depth seen inside room =
        bind-Returns (w.ts t depth seen) _
          (total.typed t depth seen inside (omega (arith, fin.ranked t)))
          (λ ts.
            bind-Returns _ _
              (if-Returns tag.omit_zero _ _ (λ e. returns _)
                (λ e.
                  if-Returns tag.omit_empty _ _
                    (λ f. can_encode_empty_total t depth seen inside (omega arith))
                    (λ f. returns _)))
              (λ optional. returns _))

    elem_inside : (t : ℕ) (k : Kind) → r.kind t ≡ k → t < n → elem_of_pointer t k < n
    elem_inside t (pointer e) same inside = (fin.of_pointer t e same inside).0
    elem_inside t _ same inside = inside

    collect_field_total :
        (depth embed_depth : ℕ) (seen : List ℕ) (sf : StructField)
        → sf.go_type < n
        → unseen n seen * (top + 3) + top + 1 ≤ fuel
        → Returns (collect_field r configured w depth embed_depth seen sf)
    unfolding collect_field
    collect_field_total depth embed_depth seen sf inside room =
        let tag = parse_json_tag sf.tag in
        let ft = elem_of_pointer sf.go_type (r.kind sf.go_type) in
        let promoted_fields = promoted r configured w depth embed_depth seen ft in
        let own = own_field r configured w depth embed_depth seen sf tag in
        if-Returns (tag.ignored || is_hidden r configured sf (r.kind ft)) (some [])
          (visible_field r configured w depth embed_depth seen sf tag ft) (λ e. returns [])
          (λ e.
            if-Returns (is_flattened r configured sf tag (r.kind ft)) promoted_fields own
              (λ f.
                if-Returns (contains ft seen) (some []) _ (λ g. returns [])
                  (λ g.
                    entered ft depth (suc embed_depth) seen
                      (elem_inside sf.go_type (r.kind sf.go_type) refl inside) g (omega arith)))
              (λ f.
                bind-Returns _ _ (field_type_total sf.go_type tag (suc depth) seen inside room)
                  (λ typed. returns _)))

    collect_total :
        (depth embed_depth : ℕ) (seen : List ℕ) (sfs : List StructField)
        → All (λ sf. sf.go_type < n) sfs
        → unseen n seen * (top + 3) + top + 1 ≤ fuel
        → Returns (collect r configured w depth embed_depth seen sfs)
    unfolding collect
    collect_total depth embed_depth seen [] inside room = returns _
    collect_total depth embed_depth seen (sf ∷ sfs) inside room =
        bind-Returns _ _ (collect_field_total depth embed_depth seen sf inside.0 room) (λ own.
          bind-Returns _ _ (collect_total depth embed_depth seen sfs inside.1 room)
            (λ rest. returns _))

    -- A call for the element of a type
    elem_total :
        (t e depth : ℕ) (seen : List ℕ) {B : Type 0} (f : Text → Option B)
        → (e < n) × (rank e < rank t)
        → unseen n seen * (top + 3) + rank t < suc fuel
        → ((ts : Text) → Returns (f ts))
        → Returns (w.ts e depth seen >>= f)
    elem_total t e depth seen f (inside, lower) room k =
        bind-Returns _ _ (total.typed e depth seen inside (omega arith)) k

    ts_kind_total :
        (t depth : ℕ) (seen : List ℕ) (k : Kind)
        → r.kind t ≡ k
        → t < n
        → unseen n seen * (top + 3) + rank t < suc fuel
        → Returns (ts_kind r configured w t depth seen k)
    ts_kind_total t depth seen (pointer e) same inside room =
        elem_total t e depth seen _ (fin.of_pointer t e same inside) room (λ ts. returns _)
    ts_kind_total t depth seen (slice e) same inside room =
        if-Returns _ _ _ (λ b. returns _)
          (λ b. elem_total t e depth seen _ (fin.of_slice t e same inside) room (λ ts. returns _))
    ts_kind_total t depth seen (array e) same inside room =
        elem_total t e depth seen _ (fin.of_array t e same inside) room (λ ts. returns _)
    ts_kind_total t depth seen (go_map k e) same inside room =
        if-Returns _ _ _ (λ b. returns _)
          (λ b. elem_total t e depth seen _ (fin.of_map t k e same inside) room (λ ts. returns _))
    ts_kind_total t depth seen (struct fs) same inside room =
        let written = λ (fields : List Field). some (object_literal (new_shape fields)) in
        let rest = struct_fields r configured w t depth seen >>= written in
        if-Returns (ltb (max_depth configured) depth || contains t seen) (some (text "unknown"))
          rest (λ b. returns _)
          (λ b.
            bind-Returns _ written (struct_fields_total t depth seen inside (omega arith))
              (λ fields. returns _))
    ts_kind_total t depth seen k same inside room = returns _

    ts_type_total :
        (t depth : ℕ) (seen : List ℕ)
        → t < n
        → unseen n seen * (top + 3) + rank t < suc fuel
        → Returns (ts_type r configured w t depth seen)
    unfolding ts_type
    ts_type_total t depth seen inside room =
        let rest = ts_kind r configured w t depth seen (r.kind t) in
        let raw = t == r.raw_message || t == r.raw_value in
        let after_number = if raw then some (text "unknown") else rest in
        let after_time = if t == r.json_number then some (text "number") else after_number in
        if-Returns (t == r.time) (some (text "string")) after_time (λ e. returns _)
          (λ e.
            if-Returns (t == r.json_number) (some (text "number")) after_number (λ f. returns _)
              (λ f.
                if-Returns raw (some (text "unknown")) rest (λ g. returns _)
                  (λ g. ts_kind_total t depth seen (r.kind t) refl inside room)))

  fields_inside :
      (t : ℕ) (k : Kind) → r.kind t ≡ k → t < n → All (λ sf. sf.go_type < n) (struct_fields_of k)
  fields_inside t (struct fs) same inside = fin.named t inside fs same
  fields_inside t k same inside = tt

  pub walk-IsTotal : (fuel : ℕ) → IsTotal (walk r configured fuel) fuel
  unfolding walk
  walk-IsTotal zero = record {
    typed = λ t depth seen inside room. absurd (omega arith);
    gathered = λ t depth embed_depth seen inside room. absurd (omega arith);
  }
  walk-IsTotal (suc fuel) =
      let w = walk r configured fuel in
      let total = walk-IsTotal fuel in
      record {
        typed = λ t depth seen inside room. ts_type_total w fuel total t depth seen inside room;
        gathered = λ t depth embed_depth seen inside room.
            collect_total w fuel total depth embed_depth seen (struct_fields_of (r.kind t))
              (fields_inside t (r.kind t) refl inside) (omega arith);
      }
