-- ===== src/Types/Cache/Collisions.antt =====
-- Path of internal/types/cache.go: two components may share one entry.
use go_solid.Prelude.{
  ℕ, Text, text, text_eq, text_comparable, none, [], ◌∷◌, ◌++◌, true, false, contains_char, ◌||◌,
  lookup, if◌then◌else◌, ◌≡◌, refl, sym, ◌∙◌, ap, arith,
}
use go_solid.Sources.{Reader}
use go_solid.Io.{Files}
use go_solid.Meta.{export_selector, default_export, valid_export_name, join_selector}
use go_solid.Meta.Selector.{split-join, split_absent, valid-no-selector}
use go_solid.Types.Cache.{
  TypeCache, Outside, cache_entry_ext, stem_of, path_of, decode_file, fresh_entry, persists, read,
  get,
}
use go_solid.Types.Cache.Restoring.{get_from-miss}

contains_char-append :
    (c : ℕ) (a b : Text) → contains_char c (a ++ b) ≡ (contains_char c a || contains_char c b)
contains_char-append c [] b = refl
contains_char-append c (x ∷ a) b = ground (arith, contains_char-append c a b)

module _ (outside : Outside) where
  stem-collides :
      (file export : Text)
      → contains_char export_selector file ≡ false
      → valid_export_name export ≡ true
      → text_eq export [] ≡ false
      → text_eq export default_export ≡ false
      → stem_of outside (join_selector file export)
        ≡ stem_of outside (file ++ (text "__" ++ export))
  unfolding stem_of
  stem-collides file export plain valid named own =
      let stem = λ (parts : Text × Text).
        if text_eq parts.1 [] then parts.0 else parts.0 ++ (text "__" ++ parts.1) in
      let absent : contains_char export_selector (file ++ (text "__" ++ export)) ≡ false =
        contains_char-append export_selector file (text "__" ++ export)
        ∙ ground (arith, plain, valid-no-selector export valid) in
      ap stem (split-join file export plain valid)
      ∙ ground (arith, named, own)
      ∙ ap stem (sym (split_absent (file ++ (text "__" ++ export)) absent))

  -- For a file whose name has no selector, and an export other than the default one that can be imported: a cache that
  -- holds nothing in memory gives the same for the component file#Export as for the component of the file
  -- file__Export, whatever entry is on disk.
  pub get-collides :
      (c : TypeCache) (reader : Reader) (fs : Files) (file export : Text)
      → contains_char export_selector file ≡ false
      → valid_export_name export ≡ true
      → text_eq export [] ≡ false
      → text_eq export default_export ≡ false
      → (get outside (record c { mem = [] }) reader fs (join_selector file export)).0
        ≡ (get outside (record c { mem = [] }) reader fs (file ++ (text "__" ++ export))).0
  unfolding get read path_of lookup
  get-collides c reader fs file export plain valid named own =
      let a = join_selector file export in
      let b = file ++ (text "__" ++ export) in
      get_from-miss outside (record c { mem = [] }) reader a (read outside c reader fs a)
      ∙ ap
          (λ (stem : Text).
            if persists c
            then fresh_entry outside reader
                (decode_file outside (lookup (outside.join c.root (stem ++ cache_entry_ext)) fs))
            else none)
          (stem-collides file export plain valid named own)
      ∙ sym (get_from-miss outside (record c { mem = [] }) reader b (read outside c reader fs b))
