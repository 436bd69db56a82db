-- ===== src/Networking/Head/Tests.antt =====
-- A head of a few tags, and its theorem at another order of its maps.
use go_solid.Prelude.{
  text, text_leb, text_comparable, List, [], ◌∷◌, true, lookup, insert, ◌≡◌, refl, Text,
}
use go_solid.Networking.Head.{
  HtmlTag, HeadBuilder, add_unique, set_title, add_tag, add_link, deterministic_output,
  new_head_segment_builder, ordered_tags, ordered_attributes, attributes_text, tag_text, build,
}
use go_solid.Networking.Head.Order.{swap, no_tags, next_tag, build-Reorders}

abbrev head : HeadBuilder
head = deterministic_output (
    add_unique (add_link new_head_segment_builder (text "icon") (text "/i.png")) (text "style")
      (text "p{}"))

built :
    build head
    ≡ text
        "<link href=\"/i.png\" rel=\"icon\"></link>\n<style>p{}</style>\n<title>go-solid</title>\n"
unfolding build ordered_tags ordered_attributes attributes_text tag_text deterministic_output
    add_unique add_link add_tag set_title new_head_segment_builder text_leb lookup insert
built = refl

abbrev link : List (Text × Text) → HtmlTag
link attributes = record { name = text "link"; attributes = attributes; inner_html = [] }

build-Reorders_example :
    build (record {
      unique = (text "title", text "A") ∷ (text "style", text "p{}") ∷ [];
      rest = link ((text "href", text "/i") ∷ (text "rel", text "icon") ∷ []) ∷ [];
      deterministic = true;
    })
    ≡ build (record {
      unique = (text "style", text "p{}") ∷ (text "title", text "A") ∷ [];
      rest = link ((text "rel", text "icon") ∷ (text "href", text "/i") ∷ []) ∷ [];
      deterministic = true;
    })
build-Reorders_example =
    build-Reorders _ _ _ _ (swap (text "title") (text "style") (text "A") (text "p{}") [] refl) (
      next_tag _ _ [] [] refl refl
        (swap (text "href") (text "rel") (text "/i") (text "icon") [] refl) no_tags)
