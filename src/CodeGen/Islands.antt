-- ===== src/CodeGen/Islands.antt =====
-- dataIslands of internal/code-gen/templateTemplating.go: which islands a document has.
use go_solid.Prelude.{
  Text, text_eq, text_leb, text_comparable, List, [], ◌∷◌, Bool, true, false, not, ◌||◌, GoMap,
  keys, lookup, map, all, sort_by, contains, is_some, contains-keep, contains-keys,
  contains-sort_by, ◌≡◌, refl, arith,
}
use go_solid.CodeGen.{
  derive_props_mount_id, inline_json, empty_island, or_text, held_at, island_mounts, data_islands,
  document,
}
use go_solid.CodeGen.Inline.{
  closes_any, closes_any-inline_json, closes_script, closes_script-inline_js,
}
use go_solid.Caching.{Rendered}

-- The mounts are the props' own and every mount that something is held for.
pub contains-island_mounts :
    (held : GoMap Text Text) (root mount : Text)
    → contains mount (island_mounts held root)
      ≡ (text_eq mount (derive_props_mount_id root) || is_some (lookup mount held))
unfolding island_mounts
contains-island_mounts held root mount =
    let props = derive_props_mount_id root in
    ground (
      arith,
      contains-keep (λ m. not (text_eq m props)) mount (sort_by text_leb (keys held)),
      contains-sort_by text_leb mount (keys held),
      contains-keys mount held,
    )

-- An island's text cannot end the element that it stands in.
abbrev pub is_safe : Text × Text → Bool
is_safe (mount, json) = not (closes_any json)

islands_safe :
    (held : GoMap Text Text) (mounts : List Text)
    → all is_safe
        (map (λ mount. (mount, inline_json (or_text (held_at held mount) empty_island))) mounts)
      ≡ true
islands_safe held [] = refl
islands_safe held (mount ∷ mounts) = ground (
  arith,
  closes_any-inline_json (or_text (held_at held mount) empty_island),
  islands_safe held mounts,
)

-- Whatever is held and whatever the bundle's text, no island of a document holds a "</", and its
-- script holds no "</script" in any case of its letters.
pub document-safe :
    (head : Text) (rendered : Rendered) (root hmr_script ssr : Text)
    → let d = document head rendered root hmr_script ssr in
      (all is_safe d.islands ≡ true) × (closes_script d.js ≡ false)
unfolding document data_islands
document-safe head rendered root hmr_script ssr = (
  islands_safe rendered.data_islands (island_mounts rendered.data_islands root),
  closes_script-inline_js rendered.js,
)
