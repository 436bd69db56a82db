-- ===== src/Sources.antt =====
-- internal/sources/sources.go: where the text of a component comes from. The lock is not modelled.
-- The file system's reader is a parameter of who uses one: it is any Reader. `digest` is
-- hashing.OfBytes, a hash of the text.
pub mod Memory
pub mod Overlay
mod Tests
use go_solid.Prelude.{
  ℕ, Text, text, text_comparable, Option, none, some, List, [], ◌∷◌, ◌++◌, Bool, true, false, GoMap,
  lookup, insert, trim_prefix, is_some, ◌≡◌, refl, ◌⊎◌, inl, inr,
}

pub record Source : Type 0 where
  pub content : Text
  pub stamp : Text
  pub inline : Bool

-- A value, or an error with its text.
pub data Result (A : Type 0) : Type 0 where
  ok : A → Result A
  failed : Text → Result A

pub Result-cases :
    {A : Type 0} (o : Result A) → ((e : Text) × (o ≡ failed e)) ⊎ ((a : A) × (o ≡ ok a))
Result-cases (failed e) = inl (e, refl)
Result-cases (ok a) = inr (a, refl)

-- Digest gives none where Go gives false.
pub record Reader : Type 0 where
  pub read : Text → Result Source
  pub stamp_of : Text → Result Text
  pub digest_of : Text → Option Text

-- OrDisk, for a reader that was supplied or not
unfoldable pub or_disk : Reader → Option Reader → Reader
or_disk disk none = disk
or_disk disk (some reader) = reader

-- MEMORY_ROOT
abbrev pub memory_root : Text
memory_root = text "/__go_solid_memory__"

unfoldable pub memory_path : Text → Text
memory_path name = memory_root ++ text "/" ++ trim_prefix name (text "/")

-- Memory; NewMemory is the empty map.
abbrev pub MemorySources : Type 0
MemorySources = GoMap Text Source

unfoldable pub not_held : Text → Text
not_held path = text "go_solid/sources: nothing held at " ++ path

module _ (digest : Text → Text) where
  -- Put
  unfoldable pub put : MemorySources → Text → Text → MemorySources
  put m path content =
      insert path (record { content = content; stamp = digest content; inline = true }) m

unfoldable pub read_memory : MemorySources → Text → Result Source
unfolding not_held
read_memory m path = elim (lookup path m) [
  | none ↦ failed (not_held path)
  | some source ↦ ok source
]

-- Memory's Read, Stamp and Digest
unfoldable pub memory : MemorySources → Reader
unfolding read_memory
memory m = record {
  read = read_memory m;
  stamp_of =
      λ path. elim (read_memory m path) [ failed e ↦ failed e | ok source ↦ ok source.stamp ];
  digest_of = λ path. elim (read_memory m path) [ failed e ↦ none | ok source ↦ some source.stamp ];
}

-- The loops of Overlay's Read and Stamp, with the error of the last layer asked, and `reason`
unfoldable pub first_of : {A : Type 0} → List (Result A) → Option Text → Text → Result A
unfolding not_held
first_of [] none path = failed (not_held path)
first_of [] (some e) path = failed e
first_of (ok a ∷ results) last path = ok a
first_of (failed e ∷ results) last path = first_of results (some e) path

abbrev pub reads : List Reader → Text → List (Result Source)
reads [] path = []
reads (r ∷ rs) path = r.read path ∷ reads rs path

abbrev pub stamps : List Reader → Text → List (Result Text)
stamps [] path = []
stamps (r ∷ rs) path = r.stamp_of path ∷ stamps rs path

unfoldable pub first_digest : List Reader → Text → Option Text
first_digest [] path = none
first_digest (r ∷ rs) path = elim (r.digest_of path) [
  | some d ↦ some d
  | none ↦ first_digest rs path
]

-- Overlay's Read, Stamp and Digest
unfoldable pub overlay : List Reader → Reader
unfolding first_of first_digest
overlay readers = record {
  read = λ path. first_of (reads readers path) none path;
  stamp_of = λ path. first_of (stamps readers path) none path;
  digest_of = first_digest readers;
}
