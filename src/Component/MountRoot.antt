-- ===== src/Component/MountRoot.antt =====
-- The mount ids of shared/registry/registry.go keep the exports of one file apart.
use go_solid.Prelude.{
  Text, text, text_eq, map, [], ◌∷◌, ◌++◌, true, false, ◌≡◌, refl, sym, ◌∙◌, append-nil, all, arith,
}
use mathlib.Core.List.{map-append, append_cancel_left, append_cancel_right}
use go_solid.Meta.{default_export, join_selector, is_identifier_part, valid_export_name}
use go_solid.Component.{flatten_char, mount_root_id_for}

-- An identifier has neither separator in it, so flattening leaves it alone.
flatten-part : (s : Text) → all is_identifier_part s ≡ true → map flatten_char s ≡ s
unfolding is_identifier_part
flatten-part [] h = refl
flatten-part (c ∷ s) h = ground (arith, flatten-part s)

flatten-valid : (s : Text) → valid_export_name s ≡ true → map flatten_char s ≡ s
unfolding valid_export_name
flatten-valid [] h = refl
flatten-valid (c ∷ s) h = ground (arith, flatten-part s)

-- What a selected export adds to the id of its file.
dashed : Text → Text
dashed [] = []
dashed (c ∷ s) = b'-' ∷ c ∷ s

dashed-injective : (a b : Text) → dashed a ≡ dashed b → a ≡ b
unfolding dashed
dashed-injective [] [] h = refl
dashed-injective [] (c ∷ s) h = cc
dashed-injective (c ∷ s) [] h = cc
dashed-injective (c ∷ s) (d ∷ t) h = cc

flatten-join :
    (file export : Text)
    → valid_export_name export ≡ true
    → text_eq export default_export ≡ false
    → map flatten_char (join_selector file export) ≡ map flatten_char file ++ dashed export
unfolding join_selector dashed
flatten-join file [] valid named = sym (append-nil _)
flatten-join file (c ∷ s) valid named = rw named (rw map-append (rw (flatten-valid (c ∷ s) valid)))

-- Two exports of one file never mount on the same element, the default export (the empty name)
-- among them: equal mount ids come from equal exports.
pub mount-join_injective :
    (file a b : Text)
    → valid_export_name a ≡ true
    → valid_export_name b ≡ true
    → text_eq a default_export ≡ false
    → text_eq b default_export ≡ false
    → mount_root_id_for (join_selector file a) ≡ mount_root_id_for (join_selector file b)
    → a ≡ b
unfolding mount_root_id_for
mount-join_injective file a b va vb na nb h =
    let flat = append_cancel_right _ _ (text "-go-solid-root") h in
    let same = sym (flatten-join file a va na) ∙ flat ∙ flatten-join file b vb nb in
    dashed-injective a b (append_cancel_left (map flatten_char file) (dashed a) (dashed b) same)
