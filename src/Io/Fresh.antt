-- ===== src/Io/Fresh.antt =====
-- An operating system that refuses nothing and picks long names for temporary files, for tests.
use go_solid.Prelude.{
  Text, text_eq, text_eq_iff, text_comparable, none, [], ◌∷◌, ◌++◌, true, false, lookup, length,
  length-append, ltb, ◌≡◌, refl, ap, arith, inl, inr, Bool-cases,
}
use go_solid.Io.{Files, Answers}

-- All names of files, one after the other
abbrev names : Files → Text
names [] = []
names ((name, f) ∷ fs) = name ++ names fs

differ : (a b : Text) → ltb (length b) (length a) ≡ true → text_eq a b ≡ false
differ a b h = elim (Bool-cases (text_eq a b)) [
  | inr e ↦ e
  | inl e ↦ let same = ap length ((text_eq_iff a b).0 e) in absurd (ground arith)
]

lookup-longer :
    (fs : Files) (q : Text) → ltb (length (names fs)) (length q) ≡ true → lookup q fs ≡ none
unfolding lookup
lookup-longer [] q h = refl
lookup-longer ((name, f) ∷ fs) q h = ground (
  arith,
  length-append name (names fs),
  lookup-longer fs q,
  differ q name,
  text_eq_iff q name,
  text_eq_iff name q,
)

-- A name that is longer than all others
abbrev pub long_name : Files → Text → Text
long_name fs path = b'.' ∷ path ++ names fs

abbrev pub fine : Answers
fine = record {
  create_temp = none;
  write = none;
  partial = [];
  close = none;
  chmod = none;
  mkdir_all = none;
  read_file = none;
  rename = λ n. none;
  remove = none;
}

pub long_name-fresh :
    (fs : Files) (path : Text)
    → (lookup (long_name fs path) fs ≡ none) × (text_eq (long_name fs path) path ≡ false)
long_name-fresh fs path = (
  lookup-longer fs (long_name fs path) (ground (arith, length-append path (names fs))),
  differ (long_name fs path) path (ground (arith, length-append path (names fs))),
)
