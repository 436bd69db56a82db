-- ===== src/CodeGen.antt =====
-- internal/code-gen/templateTemplating.go: the entry that mounts a component, and the document that
-- carries it. The texts of the templates are text/template's: a template is a parameter from its data
-- to its text, as is strconv.Quote.
pub mod Inline
pub mod Islands
mod Tests
use go_solid.Prelude.{
  ℕ, Text, text, text_eq, text_comparable, Option, none, some, List, [], ◌∷◌, ◌++◌, Bool, true,
  false, not, ◌&&◌, ◌||◌, ◌==◌, GoMap, keys, lookup, keep, map, sort_by, text_leb, trim_suffix,
  if◌then◌else◌,
}
use go_solid.Meta.{valid_export_name}
use go_solid.Component.{Component}
use go_solid.Paths.{lower_char}
use go_solid.Sources.{Source, Result, ok, failed}
use go_solid.Caching.{Rendered}

-- DerivePropsMountIdFromCompRootID
unfoldable pub derive_props_mount_id : Text → Text
derive_props_mount_id root = text "props-" ++ root

-- entryTemplateData
pub record EntryData : Type 0 where
  pub import_clause : Text
  pub import_path : Text
  pub inlined : Text
  pub binding : Text
  pub comp_name : Text
  pub props_mount_id : Text
  pub comp_mount_id : Text

module _ (quote : Text → Text) where
  -- The data of an entry before the switch of GenerateEntry
  abbrev pub entry_ids : Component → EntryData
  entry_ids comp = record {
    import_clause = [];
    import_path = [];
    inlined = [];
    binding = [];
    comp_name = quote comp.name;
    props_mount_id = quote (derive_props_mount_id comp.mount_root_id);
    comp_mount_id = quote comp.mount_root_id;
  }

  abbrev pub import_clause_for : Text → Text
  import_clause_for export =
      if text_eq export []
      then text "__gs_component"
      else text "{ " ++ export ++ text " as __gs_component }"

  -- GenerateEntry, up to its template
  unfoldable pub entry_data : Component → Source → Result EntryData
  unfolding derive_props_mount_id
  entry_data comp source =
      if not (text_eq comp.export []) && not (valid_export_name comp.export)
      then failed (
          text "go_solid: "
          ++ quote comp.export
          ++ text " is not a name that can be imported (component "
          ++ quote comp.name
          ++ text ")")
      else if not source.inline
      then ok (record (entry_ids comp) {
        import_clause = import_clause_for comp.export;
        import_path = quote (trim_suffix comp.path comp.ext);
      })
      else if text_eq comp.export []
      then failed (
          text "go_solid: component "
          ++ quote comp.name
          ++ text " has no file to import and names no export to mount")
      else ok (record (entry_ids comp) { inlined = source.content; binding = comp.export })

-- Whether the text begins with "/script" under (?i): Go folds the long s to an s as well.
abbrev pub folds_to : ℕ → ℕ → Bool
folds_to p c = lower_char c == p || p == b's' && c == 383

abbrev pub has_prefix_fold : Text → Text → Bool
has_prefix_fold [] s = true
has_prefix_fold (p ∷ ps) [] = false
has_prefix_fold (p ∷ ps) (c ∷ s) = folds_to p c && has_prefix_fold ps s

-- scriptClose, after its "<"
abbrev pub script_close : Text
script_close = text "/script"

unfoldable pub inline_js : Text → Text
inline_js [] = []
inline_js (c ∷ s) =
    if c == b'<' && has_prefix_fold script_close s then b'<' ∷ 92 ∷ inline_js s else c ∷ inline_js s

abbrev pub begins : ℕ → Text → Bool
begins c [] = false
begins c (d ∷ s) = c == d

unfoldable pub inline_json : Text → Text
inline_json [] = []
inline_json (c ∷ s) =
    if c == b'<' && begins b'/' s then b'<' ∷ 92 ∷ inline_json s else c ∷ inline_json s

-- EMPTY_ISLAND
abbrev pub empty_island : Text
empty_island = text "{}"

-- meta.Or, on texts
abbrev pub or_text : Text → Text → Text
or_text s default = if text_eq s [] then default else s

-- The mounts that dataIslands writes, in its order: slices.Sorted and DeleteFunc.
unfoldable pub island_mounts : GoMap Text Text → Text → List Text
unfolding derive_props_mount_id
island_mounts held root =
    let props = derive_props_mount_id root in
    props ∷ keep (λ mount. not (text_eq mount props)) (sort_by text_leb (keys held))

abbrev pub held_at : GoMap Text Text → Text → Text
held_at held mount = elim (lookup mount held) [ none ↦ [] | some json ↦ json ]

-- dataIslands, as the data of each island's template
unfoldable pub data_islands : GoMap Text Text → Text → List (Text × Text)
unfolding island_mounts inline_json
data_islands held root =
    map (λ mount. (mount, inline_json (or_text (held_at held mount) empty_island)))
      (island_mounts held root)

-- htmlTemplateData, with the islands as the data of their templates
pub record Document : Type 0 where
  pub head : Text
  pub styles : Text
  pub mount_root_id : Text
  pub islands : List (Text × Text)
  pub js : Text
  pub hmr_script : Text
  pub ssr : Text

-- AssembleHTML, up to its template
unfoldable pub document : Text → Rendered → Text → Text → Text → Document
unfolding data_islands inline_js
document head rendered root hmr_script ssr = record {
  head = head;
  styles =
      if text_eq rendered.css [] then [] else text "<style>" ++ rendered.css ++ text "</style>";
  mount_root_id = root;
  islands = data_islands rendered.data_islands root;
  js = inline_js rendered.js;
  hmr_script = hmr_script;
  ssr = ssr;
}
