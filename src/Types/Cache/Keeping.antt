-- ===== src/Types/Cache/Keeping.antt =====
-- read and write of internal/types/cache.go: what the disk gives back of an extraction.
use go_solid.Prelude.{
  Text, text_eq_iff, text_leb, text_comparable, Option, none, some, List, [], ◌∷◌, ◌++◌, ◌&&◌, Bool,
  GoMap, insert, keys, contains, sort_by, if◌then◌else◌, ◌≡◌, ◌⊎◌, refl, sym, ◌∙◌, ap, arith, inl,
  inr, Option-cases,
}
use go_solid.Sources.{Reader}
use go_solid.Types.Shape.{new_shape}
use go_solid.Types.Cache.Recording.{recorded_of, unchanged, digests_hold-unchanged}
use go_solid.Types.Cache.{
  Extraction, TypeCache, persists, digests_hold, digests, entry_for, extraction_of,
}

-- A list less its repetitions, after some that have been listed
abbrev pub distinct_onto : List Text → List Text → List Text
distinct_onto listed [] = listed
distinct_onto listed (p ∷ ps) =
    distinct_onto (if contains p listed then listed else listed ++ p ∷ []) ps

-- An extraction as the disk keeps it: the shape that NewShape makes of its fields, its sources in order and each
-- once, and all else as it is
abbrev pub kept : Extraction → Extraction
kept x = record {
  shape = new_shape x.shape.fields;
  name = x.name;
  found = x.found;
  has_parameter = x.has_parameter;
  sources = sort_by text_leb (distinct_onto [] x.sources);
  unresolved = x.unresolved;
}

keys-insert :
    (k v : Text) (m : GoMap Text Text)
    → keys (insert k v m) ≡ (if contains k (keys m) then keys m else keys m ++ k ∷ [])
unfolding insert
keys-insert k v [] = refl
keys-insert k v ((j, w) ∷ m) = ground (arith, keys-insert k v m, text_eq_iff j k, text_eq_iff k j)

-- What digests records is of each source.
keys-digests :
    (reader : Reader) (sources : List Text) (m out : GoMap Text Text)
    → digests reader sources m ≡ inr out
    → keys out ≡ distinct_onto (keys m) sources
unfolding digests
keys-digests reader [] m out h = ap (λ d. keys (recorded_of d)) (sym h)
keys-digests reader (p ∷ ps) m out h = elim (Option-cases (reader.digest_of p)) [
  | inl unknown ↦ absurd (ground (arith, unknown, h))
  | inr (d, known) ↦
      keys-digests reader ps (insert p d m) out (ground (arith, known, h))
      ∙ ap (λ ks. distinct_onto ks ps) (keys-insert p d m)
]

extraction_of-kept :
    (reader : Reader) (component : Text) (x : Extraction) (recorded : GoMap Text Text)
    → digests reader x.sources [] ≡ inr recorded
    → extraction_of (entry_for component recorded x) ≡ kept x
unfolding extraction_of entry_for
extraction_of-kept reader component x recorded digested =
    ap (λ ks. record (kept x) { sources = sort_by text_leb ks })
      (keys-digests reader x.sources [] recorded digested)

-- The entry of an extraction gives the extraction back, as long as its digests hold.
held-kept :
    (on : Bool) (reader later : Reader) (component : Text) (x : Extraction)
    (digested : Text ⊎ GoMap Text Text)
    → digests reader x.sources [] ≡ digested
    → (if on && digests_hold later (recorded_of digested)
        then some (extraction_of (entry_for component (recorded_of digested) x))
        else none)
      ≡ (if on && digests_hold later (recorded_of digested) then some (kept x) else none)
unfolding digests_hold
held-kept on reader later component x (inl path) digested = ground arith
held-kept on reader later component x (inr recorded) digested =
    ap (λ o. if on && digests_hold later recorded then some o else none)
      (extraction_of-kept reader component x recorded digested)

-- What the disk gives back of an extraction
abbrev pub restored : TypeCache → Reader → Reader → Text → Extraction → Option Extraction
restored c reader later component x =
    let recorded = recorded_of (digests reader x.sources []) in
    if persists c && digests_hold later recorded
    then some (extraction_of (entry_for component recorded x))
    else none

pub restored-unchanged :
    (c : TypeCache) (reader later : Reader) (component : Text) (x : Extraction)
    → restored c reader later component x ≡ (
        if persists c && unchanged reader.digest_of later.digest_of x.sources
        then some (kept x)
        else none)
restored-unchanged c reader later component x =
    held-kept (persists c) reader later component x (digests reader x.sources []) refl
    ∙ ap (λ b. if persists c && b then some (kept x) else none)
        (digests_hold-unchanged reader later x.sources)
