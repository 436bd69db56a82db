-- ===== src/Types/Cache/Tests.antt =====
-- The cache of types with small stand-ins for what it calls, and the theorems at runs of it.
use go_solid.Prelude.{
  Text, text, text_comparable, lookup, insert, delete, none, some, [], ◌∷◌, ◌++◌, true, false,
  has_suffix, text_leb, split_by, ◌≡◌, refl,
}
use go_solid.Sources.{ok, failed, Reader}
use go_solid.Io.{
  Files, write_if_changed, rename_loop, rename_over, replace_with, fill_and_replace, write_atomic,
}
use go_solid.Io.Fresh.{long_name, fine, long_name-fresh}
use go_solid.Meta.{
  cut_last, split_selector, join_selector, is_identifier_start, is_identifier_part, js_identifier,
  valid_export_name,
}
use go_solid.Types.Shape.{Field, new_shape, compact}
use go_solid.Types.Cache.{
  Extraction, Entry, TypeCache, Outside, not_relative, not_importable, valid_component_name,
  persists, stamps_hold, digests_hold, stamps_for, remember, digests, extraction_of, entry_for,
  stem_of, path_of, read, get, write, put, remove_each, prune,
}
use go_solid.Types.Cache.Restoring.{GivesFresh, get-put, get-restart}
use go_solid.Types.Cache.Pruning.{lookup-prune}
use go_solid.Types.Cache.Collisions.{get-collides}

program : Unit {0}
unfolding cut_last split_selector join_selector is_identifier_start is_identifier_part js_identifier
    valid_export_name split_by valid_component_name persists stamps_hold digests_hold stamps_for
    remember digests extraction_of entry_for stem_of path_of read get write put remove_each prune
    write_if_changed write_atomic fill_and_replace replace_with rename_over rename_loop lookup
    insert delete has_suffix text_leb new_shape compact
program = tt

abbrev title : Field
title = record { name = text "title"; ts = text "string"; optional = false }

abbrev page : Extraction
page = record {
  shape = record { fields = title ∷ [] };
  name = text "Props";
  found = true;
  has_parameter = true;
  sources = text "/c/Page.tsx" ∷ [];
  unresolved = [];
}

abbrev page_entry : Entry
page_entry = record {
  component = text "Page#Card";
  sources = (text "/c/Page.tsx", text "1") ∷ [];
  fields = title ∷ [];
  name = text "Props";
  found = true;
  has_param = true;
  unresolved = [];
}

abbrev outside : Outside
outside = record {
  join = λ root name. root ++ b'/' ∷ name;
  encode = λ stored. ok stored.component;
  decode = λ bytes. some page_entry;
  answers = λ fs path. fine;
  staged = long_name;
  is_missing = λ root. false;
  walk_fault = none;
  remove_fault = λ path. none;
}

outside-GivesFresh : GivesFresh outside
outside-GivesFresh fs path = long_name-fresh fs path

-- The stamp and the digest of every source
abbrev reading : Text → Reader
reading version = record {
  read = λ path. failed path;
  stamp_of = λ path. ok version;
  digest_of = λ path. some version;
}

abbrev cache : TypeCache
cache = record { root = text "/w/type_cache"; mem = [] }

abbrev card : Text
card = text "Page#Card"

abbrev after : Files
after = (text "/w/type_cache/Page__Card.types.json", record { content = card; mode = 420 }) ∷ []

put_fine :
    put outside cache (reading (text "1")) [] card page
    ≡ (remember cache (reading (text "1")) card page, after, none)
unfolding program
put_fine = refl

name_outside : valid_component_name (text "a/../b") ≡ some not_relative
unfolding program
name_outside = refl

name_not_importable : valid_component_name (text "a#1b") ≡ some not_importable
unfolding program
name_not_importable = refl

get-put_example :
    (get outside
      (put outside cache (reading (text "1")) [] card page).0
      (reading (text "1"))
      after
      card).0
    ≡ some page
unfolding program
get-put_example =
    get-put outside cache (reading (text "1")) (reading (text "1")) [] after card page
      outside-GivesFresh (λ bytes e. refl) refl refl refl

get-restart_example :
    (get outside (record cache { mem = [] }) (reading (text "1")) after card).0 ≡ some page
unfolding program
get-restart_example =
    get-restart outside cache (reading (text "1")) (reading (text "1")) [] after card page
      outside-GivesFresh (λ bytes e. refl) refl refl

missed : (get outside (record cache { mem = [] }) (reading (text "2")) after card).0 ≡ none
unfolding program
missed = refl

lookup-prune_example :
    lookup
      (text "/w/type_cache/Page__Card.types.json")
      (prune outside cache (text "Page" ∷ []) after).0
    ≡ none
unfolding program
lookup-prune_example =
    lookup-prune outside cache (text "Page" ∷ []) after (text "/w/type_cache/Page__Card.types.json")
      refl refl refl

get-collides_example :
    (get outside
      (record cache { mem = [] })
      (reading (text "1"))
      after
      (join_selector (text "Page") (text "Card"))).0
    ≡ (get outside (record cache { mem = [] }) (reading (text "1")) after (text "Page__Card")).0
unfolding program
get-collides_example =
    get-collides outside cache (reading (text "1")) after (text "Page") (text "Card") refl refl refl
      refl

get_other : (get outside cache (reading (text "1")) after (text "Page__Card")).0 ≡ some page
unfolding program
get_other = refl
