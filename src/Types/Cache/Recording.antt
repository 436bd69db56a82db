-- ===== src/Types/Cache/Recording.antt =====
-- internal/types/cache.go: what remember and write record of the sources, and when it still holds.
use go_solid.Prelude.{
  Text, text_eq, text_eq_iff, text_comparable, Option, none, some, List, [], ◌∷◌, ◌&&◌, not, Bool,
  true, false, GoMap, lookup, insert, lookup-insert, all, is_empty, is_some, ◌≡◌, ◌⊎◌, refl, ◌∙◌,
  sym, ap, arith, inl, inr, Bool-cases, Option-cases,
}
use go_solid.Sources.{Result-cases, ok, failed, Reader}
use go_solid.Types.Cache.{stamp_holds, stamps_hold, digest_holds, digests_hold, stamps_for, digests}

-- What a reader says of a source now
abbrev pub stamp_at : Reader → Text → Option Text
stamp_at reader path = elim (reader.stamp_of path) [ failed e ↦ none | ok s ↦ some s ]

abbrev holds : (Text → Option Text) → Text × Text → Bool
holds later (path, was) = elim (later path) [ none ↦ false | some now ↦ text_eq now was ]

abbrev same_at : (Text → Option Text) → (Text → Option Text) → Text → Bool
same_at value later path = elim (value path) [ none ↦ false | some was ↦ holds later (path, was) ]

-- There are sources, and of each the same is known now as before.
abbrev pub unchanged : (Text → Option Text) → (Text → Option Text) → List Text → Bool
unchanged value later sources = all (same_at value later) sources && not (is_empty sources)

-- The loop of remember and of digests, over what is known of each source
record_each : (Text → Option Text) → List Text → GoMap Text Text → Option (GoMap Text Text)
record_each value [] m = some m
record_each value (path ∷ paths) m = elim (value path) [
  | none ↦ none
  | some v ↦ record_each value paths (insert path v m)
]

abbrev all_hold : (Text → Option Text) → Option (GoMap Text Text) → Bool
all_hold later none = false
all_hold later (some m) = all (holds later) m && not (is_empty m)

all-insert :
    (later : Text → Option Text) (k v : Text) (m : GoMap Text Text)
    → ((w : Text) → lookup k m ≡ some w → w ≡ v)
    → all (holds later) (insert k v m) ≡ (holds later (k, v) && all (holds later) m)
unfolding insert lookup
all-insert later k v [] same = refl
all-insert later k v ((j, w) ∷ m) same = elim (Bool-cases (text_eq j k)) [
  | inl e ↦ ground (arith, e, same w, text_eq_iff j k)
  | inr e ↦ ground (arith, e, all-insert later k v m)
]

is_empty-insert : (k v : Text) (m : GoMap Text Text) → is_empty (insert k v m) ≡ false
unfolding insert
is_empty-insert k v [] = refl
is_empty-insert k v ((j, w) ∷ m) = ground arith

-- What has been recorded is what is known.
abbrev IsTaken : (Text → Option Text) → GoMap Text Text → Type 0
IsTaken value m = (k w : Text) → lookup k m ≡ some w → value k ≡ some w

insert-IsTaken :
    (value : Text → Option Text) (k v : Text) (m : GoMap Text Text)
    → value k ≡ some v
    → IsTaken value m
    → IsTaken value (insert k v m)
insert-IsTaken value k v m known taken j w h =
    ground (arith, lookup-insert k j v m, taken j w, text_eq_iff k j, ap value)

record_each-next :
    (value : Text → Option Text) (path v : Text) (paths : List Text) (m : GoMap Text Text)
    → value path ≡ some v
    → record_each value (path ∷ paths) m ≡ record_each value paths (insert path v m)
unfolding record_each
record_each-next value path v paths m known = ground (arith, known)

record_each-hold :
    (value later : Text → Option Text) (sources : List Text) (m : GoMap Text Text)
    → IsTaken value m
    → all_hold later (record_each value sources m) ≡ (
        (all (same_at value later) sources && all (holds later) m)
        && not (is_empty sources && is_empty m))
unfolding record_each
record_each-hold value later [] m taken = refl
record_each-hold value later (path ∷ paths) m taken = elim (Option-cases (value path)) [
  | inl unknown ↦ ground (arith, unknown)
  | inr (v, known) ↦
      let ih =
        record_each-hold value later paths (insert path v m)
          (insert-IsTaken value path v m known taken) in
      let same : (w : Text) → lookup path m ≡ some w → w ≡ v =
        λ w h. ground (arith, taken path w h, known) in
      ap (all_hold later) (record_each-next value path v paths m known)
      ∙ ih
      ∙ ground (arith, known, all-insert later path v m same, is_empty-insert path v m)
]

lookup_none : (value : Text → Option Text) → IsTaken value []
unfolding lookup
lookup_none value k w h = absurd (ground arith)

-- What is recorded of a list of sources holds later exactly if it is the same then for each of them, and
-- there are sources.
record_each-unchanged :
    (value later : Text → Option Text) (sources : List Text)
    → all_hold later (record_each value sources []) ≡ unchanged value later sources
record_each-unchanged value later sources =
    record_each-hold value later sources [] (lookup_none value) ∙ ground arith

each_stamp :
    (later : Reader) (m : GoMap Text Text)
    → all (stamp_holds later) m ≡ all (holds (stamp_at later)) m
each_stamp later [] = refl
each_stamp later ((path, was) ∷ m) = elim (Result-cases (later.stamp_of path)) [
  | inl (e, missing) ↦ ground (arith, missing)
  | inr (s, known) ↦ ground (arith, known, each_stamp later m)
]

each_digest :
    (later : Reader) (m : GoMap Text Text)
    → all (digest_holds later) m ≡ all (holds later.digest_of) m
each_digest later [] = refl
each_digest later ((path, want) ∷ m) = elim (Option-cases (later.digest_of path)) [
  | inl missing ↦ ground (arith, missing)
  | inr (d, known) ↦ ground (arith, known, each_digest later m)
]

stamps_for-record_each :
    (reader : Reader) (sources : List Text) (m : GoMap Text Text)
    → stamps_for reader sources m ≡ record_each (stamp_at reader) sources m
unfolding stamps_for record_each
stamps_for-record_each reader [] m = refl
stamps_for-record_each reader (path ∷ paths) m = elim (Result-cases (reader.stamp_of path)) [
  | inl (e, missing) ↦ ground (arith, missing)
  | inr (s, known) ↦ ground (arith, known, stamps_for-record_each reader paths (insert path s m))
]

stamps_hold-all_hold :
    (later : Reader) (stamps : GoMap Text Text)
    → stamps_hold later stamps ≡ all_hold (stamp_at later) (some stamps)
unfolding stamps_hold
stamps_hold-all_hold later stamps = ap (λ b. b && not (is_empty stamps)) (each_stamp later stamps)

-- The stamps that remember takes of the sources
pub stamps_hold-unchanged :
    (reader later : Reader) (sources : List Text) (stamps : GoMap Text Text)
    → stamps_for reader sources [] ≡ some stamps
    → stamps_hold later stamps ≡ unchanged (stamp_at reader) (stamp_at later) sources
stamps_hold-unchanged reader later sources stamps stamped =
    stamps_hold-all_hold later stamps
    ∙ ap (all_hold (stamp_at later)) (sym stamped ∙ stamps_for-record_each reader sources [])
    ∙ record_each-unchanged (stamp_at reader) (stamp_at later) sources

-- Where every source can be stamped, remember keeps the extraction.
pub stamps_for-total :
    (reader : Reader) (sources : List Text) (m : GoMap Text Text)
    → all (λ path. is_some (stamp_at reader path)) sources ≡ true
    → (stamps : GoMap Text Text) × (stamps_for reader sources m ≡ some stamps)
unfolding stamps_for
stamps_for-total reader [] m h = (m, refl)
stamps_for-total reader (path ∷ paths) m h = elim (Result-cases (reader.stamp_of path)) [
  | inl (e, missing) ↦ absurd (ground (arith, missing))
  | inr (s, known) ↦
      let (stamps, stamped) = stamps_for-total reader paths (insert path s m) (ground arith) in
      (stamps, ground (arith, known, stamped))
]

abbrev pub recorded_of : Text ⊎ GoMap Text Text → GoMap Text Text
recorded_of (inl path) = []
recorded_of (inr recorded) = recorded

digests-record_each :
    (reader later : Reader) (sources : List Text) (m : GoMap Text Text)
    → digests_hold later (recorded_of (digests reader sources m))
      ≡ all_hold later.digest_of (record_each reader.digest_of sources m)
unfolding digests digests_hold record_each
digests-record_each reader later [] m = ap (λ b. b && not (is_empty m)) (each_digest later m)
digests-record_each reader later (path ∷ paths) m = elim (Option-cases (reader.digest_of path)) [
  | inl unknown ↦ ground (arith, unknown)
  | inr (d, known) ↦ ground (arith, known, digests-record_each reader later paths (insert path d m))
]

-- The digests that write records of the sources
pub digests_hold-unchanged :
    (reader later : Reader) (sources : List Text)
    → digests_hold later (recorded_of (digests reader sources []))
      ≡ unchanged reader.digest_of later.digest_of sources
digests_hold-unchanged reader later sources =
    digests-record_each reader later sources []
    ∙ record_each-unchanged reader.digest_of later.digest_of sources
