-- ===== src/Networking/Head.antt =====
-- internal/networking/html.go, with the head template of internal/networking/defaults.go: the builder
-- of a document's head. A Go map is a list of its entries, in the order of one iteration over it.
pub mod Order
mod Tests
use go_solid.Prelude.{
  Text, text, text_leb, text_comparable, Option, none, some, List, [], ◌∷◌, ◌++◌, Bool, true, false,
  GoMap, lookup, insert, keys, map, sort_by, if◌then◌else◌,
}

-- HTMLTag
pub record HtmlTag : Type 0 where
  pub name : Text
  pub attributes : GoMap Text Text
  pub inner_html : Text

-- htmlHeadSegmentBuilder
pub record HeadBuilder : Type 0 where
  pub unique : GoMap Text Text
  pub rest : List HtmlTag
  pub deterministic : Bool

-- AddUnique
unfoldable pub add_unique : HeadBuilder → Text → Text → HeadBuilder
add_unique this key value = record this { unique = insert key value this.unique }

-- SetTitle
unfoldable pub set_title : HeadBuilder → Text → HeadBuilder
unfolding add_unique
set_title this title = add_unique this (text "title") title

-- Add
unfoldable pub add_tag : HeadBuilder → HtmlTag → HeadBuilder
add_tag this tag = record this { rest = this.rest ++ tag ∷ [] }

-- AddLink
unfoldable pub add_link : HeadBuilder → Text → Text → HeadBuilder
unfolding add_tag
add_link this rel href = add_tag this (record {
  name = text "link";
  attributes = (text "href", href) ∷ (text "rel", rel) ∷ [];
  inner_html = [];
})

-- DeterministicOutput
unfoldable pub deterministic_output : HeadBuilder → HeadBuilder
deterministic_output this = record this { deterministic = true }

-- newHeadSegmentBuilder
unfoldable pub new_head_segment_builder : HeadBuilder
unfolding set_title
new_head_segment_builder =
    set_title (record { unique = []; rest = []; deterministic = false }) (text "go-solid")

-- SetHTMLHeadSegment, as what it makes of the template: none is a nil configurator.
unfoldable pub set_html_head_segment :
    HeadBuilder → Option (HeadBuilder → HeadBuilder) → HeadBuilder
unfolding new_head_segment_builder
set_html_head_segment template none = template
set_html_head_segment template (some fn) = fn new_head_segment_builder

abbrev pub unique_tag : Text × Text → HtmlTag
unique_tag (name, inner) = record { name = name; attributes = []; inner_html = inner }

abbrev pub name_leb : HtmlTag → HtmlTag → Bool
name_leb a b = text_leb a.name b.name

-- The tags in the order in which Build writes them
unfoldable pub ordered_tags : HeadBuilder → List HtmlTag
ordered_tags this =
    let tags = this.rest ++ map unique_tag this.unique in
    if this.deterministic then sort_by name_leb tags else tags

-- The names of a tag's attributes in the order in which Build writes them
unfoldable pub ordered_attributes : Bool → HtmlTag → List Text
ordered_attributes deterministic tag =
    if deterministic then sort_by text_leb (keys tag.attributes) else keys tag.attributes

abbrev pub or_empty : Option Text → Text
or_empty none = []
or_empty (some value) = value

-- attributes[name]
abbrev pub value_of : GoMap Text Text → Text → Text
value_of attributes name = or_empty (lookup name attributes)

unfoldable pub attributes_text : GoMap Text Text → List Text → Text
attributes_text attributes [] = []
attributes_text attributes (name ∷ names) =
    text " "
    ++ name
    ++ text "=\""
    ++ value_of attributes name
    ++ text "\""
    ++ attributes_text attributes names

unfoldable pub tag_text : Bool → HtmlTag → Text
unfolding ordered_attributes attributes_text
tag_text deterministic tag =
    text "<"
    ++ tag.name
    ++ attributes_text tag.attributes (ordered_attributes deterministic tag)
    ++ text ">"
    ++ tag.inner_html
    ++ text "</"
    ++ tag.name
    ++ text ">\n"

abbrev pub tags_text : Bool → List HtmlTag → Text
tags_text deterministic [] = []
tags_text deterministic (tag ∷ tags) = tag_text deterministic tag ++ tags_text deterministic tags

-- Build
unfoldable pub build : HeadBuilder → Text
unfolding ordered_tags tag_text
build this = tags_text this.deterministic (ordered_tags this)
