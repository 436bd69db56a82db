-- ===== src/Types/Mapper/Tags.antt =====
-- parseJSONTag of internal/types/mapper.go: the parts of a json tag that change a field.
use go_solid.Prelude.{
  ℕ, Text, text, text_eq, Option, none, some, List, [], ◌∷◌, Bool, true, false, not, trim_prefix,
  split_by, ◌==◌, if◌then◌else◌,
}

-- jsonTag
pub record JsonTag : Type 0 where
  pub name : Text
  pub has_name : Bool
  pub ignored : Bool
  pub omit_empty : Bool
  pub omit_zero : Bool
  pub embed : Bool

-- jsonTag{}
abbrev pub no_tag : JsonTag
no_tag = record {
  name = [];
  has_name = false;
  ignored = false;
  omit_empty = false;
  omit_zero = false;
  embed = false;
}

-- The texts before and after the first occurrence of a character: strings.Cut by it, and strings.Index
-- with the slices around what it gives
unfoldable pub cut_first : ℕ → Text → Option (Text × Text)
cut_first sep [] = none
cut_first sep (c ∷ s) =
    let rest = cut_first sep s in
    if c == sep
    then some ([], s)
    else elim rest [ none ↦ none | some (before, after) ↦ some (c ∷ before, after) ]

abbrev pub cut : ℕ → Text → Text × Text
cut sep s = elim (cut_first sep s) [ none ↦ (s, []) | some parts ↦ parts ]

-- One turn of the loop over the options
abbrev pub with_option : Text → JsonTag → JsonTag
with_option opt out =
    if text_eq opt (text "omitempty")
    then record out { omit_empty = true }
    else if text_eq opt (text "omitzero")
    then record out { omit_zero = true }
    else if text_eq opt (text "embed")
    then record out { embed = true }
    else out

unfoldable pub with_options : List Text → JsonTag → JsonTag
with_options [] out = out
with_options (opt ∷ opts) out = with_options opts (with_option opt out)

-- A tag that names its field, and the options after the name
abbrev pub named_tag : Text → Text → JsonTag
named_tag name rest =
    with_options (split_by b',' rest)
      (record no_tag { name = name; has_name = not (text_eq name []) })

-- The name in quotes is one even if it is empty.
abbrev pub quoted_tag : Option (Text × Text) → JsonTag
quoted_tag none = no_tag
quoted_tag (some (name, rest)) =
    with_options (split_by b',' (trim_prefix rest (text ",")))
      (record no_tag { name = name; has_name = true })

-- The cases of the first character
abbrev pub tag_body : Text → JsonTag
tag_body [] = named_tag [] []
tag_body (c ∷ rest) =
    if c == b','
    then with_options (split_by b',' rest) no_tag
    else if c == b'\''
    then quoted_tag (cut_first b'\'' rest)
    else (let (name, remainder) = cut b',' (c ∷ rest) in named_tag name remainder)

-- parseJSONTag, for the tag that a field has or has not
unfoldable pub parse_json_tag : Option Text → JsonTag
unfolding cut_first with_options split_by
parse_json_tag none = no_tag
parse_json_tag (some tag) =
    if text_eq tag (text "-") then record no_tag { ignored = true } else tag_body tag
