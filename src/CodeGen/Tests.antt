-- ===== src/CodeGen/Tests.antt =====
-- Runs of the inlining and the islands, and the theorems at one document.
use go_solid.Prelude.{text, text_leb, text_comparable, [], ◌∷◌, true, false, all, ◌≡◌, refl, lookup}
use go_solid.Caching.{Rendered}
use go_solid.CodeGen.{
  inline_js, inline_json, island_mounts, data_islands, document, derive_props_mount_id,
}
use go_solid.CodeGen.Inline.{closes_script}
use go_solid.CodeGen.Islands.{document-safe, is_safe}

abbrev page : Rendered
page = record {
  html = [];
  css = [];
  js = text "x='</SCRIPT>'";
  css_name = [];
  js_name = [];
  data_islands = (text "user", text "{\"a\":\"</b>\"}") ∷ [];
}

js_inlined : inline_js page.js ≡ text "x='<\\/SCRIPT>'"
unfolding inline_js
js_inlined = refl

islands_made :
    data_islands page.data_islands (text "r")
    ≡ ((text "props-r", text "{}") ∷ (text "user", text "{\"a\":\"<\\/b>\"}") ∷ [])
unfolding data_islands island_mounts inline_json derive_props_mount_id text_leb lookup
islands_made = refl

document-safe_example :
    (all is_safe (document [] page (text "r") [] []).islands ≡ true)
    × (closes_script (document [] page (text "r") [] []).js ≡ false)
document-safe_example = document-safe [] page (text "r") [] []
