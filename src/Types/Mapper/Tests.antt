-- ===== src/Types/Mapper/Tests.antt =====
-- The mapper on a struct that points to and embeds itself, and on a slice of itself.
use go_solid.Prelude.{
  ℕ, zero, suc, ◌<◌, ◌==◌, Bool, text, has_suffix, trim_suffix, text_leb, lookup, insert, none,
  some, List, [], ◌∷◌, true, false, is_some, keep, if◌then◌else◌, All, ◌≡◌, refl, ap, subst, arith,
}
use go_solid.Types.Shape.{new_shape, compact, find_field, search_field}
use go_solid.Types.Mapper.{
  JsonField, pick_field, or_null, array_of, union_after, has_top_level_union, object_literal,
}
use go_solid.Types.Mapper.Tags.{no_tag, parse_json_tag}
use go_solid.Types.Mapper.Walk.{
  StructField, Kind, string, pointer, slice, array, go_map, struct, struct_fields_of, Reflect,
  by_name, winners_of, winners, max_depth, struct_fields, can_encode_empty, field_type,
  collect_field, collect, ts_type, walk,
}
use go_solid.Types.Mapper.Props.{shaped, Value, struct_value, behind, shape_of_type, shape_of_value}
use go_solid.Types.Mapper.Termination.{IsFinite}
use go_solid.Types.Mapper.Answers.{Within, shape_of_value-answers, ts-endless}
use go_solid.Types.Mapper.Grouping.{has_name, field_of, find_field-winners}

program : Unit {0}
unfolding parse_json_tag has_suffix trim_suffix text_leb lookup insert new_shape compact find_field
    search_field pick_field or_null array_of union_after has_top_level_union object_literal by_name
    winners_of winners max_depth struct_fields can_encode_empty field_type collect_field collect
    ts_type walk shape_of_type shape_of_value
program = tt

tag_options :
    parse_json_tag (some (text "id,omitempty,string"))
    ≡ record no_tag { name = text "id"; has_name = true; omit_empty = true }
unfolding program
tag_options = refl

tag_quoted :
    parse_json_tag (some (text "'a,b',omitzero"))
    ≡ record no_tag { name = text "a,b"; has_name = true; omit_zero = true }
unfolding program
tag_quoted = refl

tag_unclosed : parse_json_tag (some (text "'a")) ≡ no_tag
unfolding program
tag_unclosed = refl

abbrev title : StructField
title = record {
  go_name = text "Title";
  tag = some (text "title");
  go_type = 0;
  anonymous = false;
  exported = true;
}

abbrev next : StructField
next = record { go_name = text "Next"; tag = none; go_type = 2; anonymous = false; exported = true }

abbrev itself : StructField
itself = record {
  go_name = text "Node";
  tag = none;
  go_type = 2;
  anonymous = true;
  exported = true;
}

abbrev all_of : StructField
all_of = record {
  go_name = text "All";
  tag = some (text "all,omitempty");
  go_type = 3;
  anonymous = false;
  exported = true;
}

-- string, Node, *Node and []Node
abbrev node_kind : ℕ → Kind
node_kind zero = string
node_kind (suc zero) = struct (title ∷ next ∷ itself ∷ all_of ∷ [])
node_kind (suc (suc zero)) = pointer 1
node_kind (suc (suc (suc zero))) = slice 1
node_kind (suc (suc (suc (suc t)))) = string

abbrev nodes : Reflect
nodes = record {
  kind = node_kind;
  time = 100;
  json_number = 101;
  raw_message = 102;
  raw_value = 103;
}

abbrev rank : ℕ → ℕ
rank t = if t == 2 then 1 else if t == 3 then 1 else 0

-- A pointer to a struct
abbrev pages : ℕ → Value
pages zero = behind 1
pages (suc v) = struct_value 1

-- var x any; x = &x
abbrev cycle : ℕ → Value
cycle zero = behind 1
cycle (suc v) = behind 0

node_shape :
    shape_of_value nodes 0 pages 2 40 (walk nodes 0 40) 0
    ≡ some (
        shaped (record {
          fields =
              record { name = text "Next"; ts = text "unknown | null"; optional = false }
              ∷ record { name = text "all"; ts = text "unknown[]"; optional = true }
              ∷ record { name = text "title"; ts = text "string"; optional = false }
              ∷ [];
        }))
unfolding program
node_shape = refl

node_fields :
    (t : ℕ) (fs : List StructField) → node_kind t ≡ struct fs → All (λ sf. sf.go_type < 4) fs
node_fields zero fs h = absurd (ground arith)
node_fields (suc zero) fs h =
    subst (All (λ sf. sf.go_type < 4)) (ap struct_fields_of h) (omega arith)
node_fields (suc (suc zero)) fs h = absurd (ground arith)
node_fields (suc (suc (suc zero))) fs h = absurd (ground arith)
node_fields (suc (suc (suc (suc t)))) fs h = absurd (ground arith)

node_pointer : (t e : ℕ) → node_kind t ≡ pointer e → (e < 4) × (rank e < rank t)
node_pointer zero e h = absurd (ground arith)
node_pointer (suc zero) e h = absurd (ground arith)
node_pointer (suc (suc zero)) e h = ground arith
node_pointer (suc (suc (suc zero))) e h = absurd (ground arith)
node_pointer (suc (suc (suc (suc t)))) e h = absurd (ground arith)

node_slice : (t e : ℕ) → node_kind t ≡ slice e → (e < 4) × (rank e < rank t)
node_slice zero e h = absurd (ground arith)
node_slice (suc zero) e h = absurd (ground arith)
node_slice (suc (suc zero)) e h = absurd (ground arith)
node_slice (suc (suc (suc zero))) e h = ground arith
node_slice (suc (suc (suc (suc t)))) e h = absurd (ground arith)

-- An array or a map
abbrev is_other : Kind → Bool
is_other (array e) = true
is_other (go_map k e) = true
is_other _ = false

node_other : (t : ℕ) → is_other (node_kind t) ≡ false
node_other zero = refl
node_other (suc zero) = refl
node_other (suc (suc zero)) = refl
node_other (suc (suc (suc zero))) = refl
node_other (suc (suc (suc (suc t)))) = refl

nodes-IsFinite : IsFinite nodes 4 rank 1
nodes-IsFinite = record {
  ranked = λ t. ground arith;
  named = λ t inside fs h. node_fields t fs h;
  of_pointer = λ t e h inside. node_pointer t e h;
  of_slice = λ t e h inside. node_slice t e h;
  of_array = λ t e h inside. absurd (ground (arith, ap is_other h, node_other t));
  of_map = λ t k e h inside. absurd (ground (arith, ap is_other h, node_other t));
}

pages_inside : (u : ℕ) → Within 4 (pages u)
pages_inside zero = tt
pages_inside (suc u) = omega arith

shape_of_value-answers_example :
    is_some (shape_of_value nodes 0 pages 2 40 (walk nodes 0 40) 0) ≡ true
shape_of_value-answers_example =
    shape_of_value-answers nodes 0 4 rank 1 40 2 pages 0 nodes-IsFinite pages_inside (omega arith)

cycle_unanswered : is_some (shape_of_value nodes 0 cycle 500 40 (walk nodes 0 40) 0) ≡ false
unfolding shape_of_value
cycle_unanswered = refl

-- type List []List
abbrev endless : Reflect
endless = record nodes { kind = λ t. slice t }

ts-endless_example : (walk endless 0 1000).ts 7 0 [] ≡ none
ts-endless_example = ts-endless endless 0 1000 7 0 [] refl refl

abbrev shallow : JsonField
shallow = record {
  field = record { name = text "a"; ts = text "string"; optional = false };
  depth = 0;
  tagged = false;
}

abbrev deep : JsonField
deep = record {
  field = record { name = text "a"; ts = text "number"; optional = false };
  depth = 1;
  tagged = true;
}

abbrev candidates : List JsonField
candidates =
    deep ∷ record shallow { field = record shallow.field { name = text "b" } } ∷ shallow ∷ []

find_field-winners_example :
    find_field (new_shape (winners candidates)) (text "a")
    ≡ field_of (pick_field (keep (has_name (text "a")) candidates))
find_field-winners_example = find_field-winners (text "a") candidates

winner_found : find_field (new_shape (winners candidates)) (text "a") ≡ some shallow.field
unfolding program
winner_found = refl
