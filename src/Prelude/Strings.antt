-- ===== src/Prelude/Strings.antt =====
-- Go's `string` as a list of code points, with the `strings` functions that the program calls.
use Prim.Native.Char.{code}
use Prim.Native.Nat.{ℕ}
use Prim.Native.String.{String}
use mathlib.Core.Path.{◌≡◌, refl, ap}
use mathlib.Core.Logic.{◌↔◌, inl, inr}
use mathlib.Core.Bool.{Bool, true, false, ◌&&◌, ◌||◌}
use mathlib.Core.Option.{Option, none, some}
use mathlib.Core.List.{List, [], ◌∷◌, ◌++◌}
use native.Mathlib.Omega.{arith}
use go_solid.Prelude.Lists.{length, length-append}
use go_solid.Prelude.Tests.{◌==◌, ltb, if◌then◌else◌, Comparable, Bool-cases, same_refl}

abbrev pub Text : Type 0
Text = List ℕ

abbrev pub text : String → Text
text String.[] = []
text (String.◌∷◌ c s) = code c ∷ text s

-- a == b
abbrev pub text_eq : Text → Text → Bool
text_eq [] [] = true
text_eq [] (b ∷ t) = false
text_eq (a ∷ s) [] = false
text_eq (a ∷ s) (b ∷ t) = (a == b) && text_eq s t

pub text_eq_refl : (a : Text) → text_eq a a ≡ true
text_eq_refl [] = refl
text_eq_refl (a ∷ s) = ground (arith, text_eq_refl s)

pub text_eq-eq : (a b : Text) → text_eq a b ≡ true → a ≡ b
text_eq-eq [] [] h = refl
text_eq-eq [] (b ∷ t) h = cc
text_eq-eq (a ∷ s) [] h = cc
text_eq-eq (a ∷ s) (b ∷ t) h = ground (arith, text_eq-eq s t)

pub text_eq_iff : (a b : Text) → (text_eq a b ≡ true) ↔ (a ≡ b)
text_eq_iff a b = (text_eq-eq a b, λ e. rw e (text_eq_refl b))

instance abbrev pub text_comparable : Comparable Text
text_comparable = record { same = text_eq; same_iff = text_eq_iff }

-- strings.HasPrefix(s, prefix)
abbrev pub has_prefix : Text → Text → Bool
has_prefix s [] = true
has_prefix [] (p ∷ ps) = false
has_prefix (c ∷ s) (p ∷ ps) = (c == p) && has_prefix s ps

-- strings.TrimPrefix(s, prefix)
abbrev pub drop_prefix : Text → Text → Option Text
drop_prefix s [] = some s
drop_prefix [] (p ∷ ps) = none
drop_prefix (c ∷ s) (p ∷ ps) = if c == p then drop_prefix s ps else none

abbrev pub trim_prefix : Text → Text → Text
trim_prefix s p = elim (drop_prefix s p) [ none ↦ s | some rest ↦ rest ]

-- strings.HasSuffix(s, suffix): some ending of s is the suffix.
unfoldable pub has_suffix : Text → Text → Bool
has_suffix [] p = text_eq [] p
has_suffix (c ∷ s) p = text_eq (c ∷ s) p || has_suffix s p

-- strings.TrimSuffix(s, suffix)
unfoldable pub trim_suffix : Text → Text → Text
trim_suffix [] p = []
trim_suffix (c ∷ s) p = if text_eq (c ∷ s) p then [] else c ∷ trim_suffix s p

-- strings.ContainsRune, and strings.Contains for a text of one character
abbrev pub contains_char : ℕ → Text → Bool
contains_char c [] = false
contains_char c (x ∷ s) = (c == x) || contains_char c s

-- strings.Join(parts, sep)
abbrev pub join : Text → List Text → Text
join sep [] = []
join sep (s ∷ []) = s
join sep (s ∷ t ∷ parts) = s ++ sep ++ join sep (t ∷ parts)

-- strings.SplitSeq by a character, with what has been read of the first part
abbrev pub onto_first : ℕ → List Text → List Text
onto_first c [] = (c ∷ []) ∷ []
onto_first c (part ∷ parts) = (c ∷ part) ∷ parts

unfoldable pub split_by : ℕ → Text → List Text
split_by sep [] = [] ∷ []
split_by sep (c ∷ s) =
    let rest = split_by sep s in if c == sep then [] ∷ rest else onto_first c rest

-- strings.Compare(a, b) <= 0: the order of the bytes of UTF-8 is that of the code points.
unfoldable pub text_leb : Text → Text → Bool
text_leb [] b = true
text_leb (x ∷ a) [] = false
text_leb (x ∷ a) (y ∷ b) = ltb x y || x == y && text_leb a b

pub has_prefix-append : (p s : Text) → has_prefix (p ++ s) p ≡ true
has_prefix-append [] s = refl
has_prefix-append (c ∷ p) s = ground (arith, has_prefix-append p s)

pub has_prefix-eq : (s p : Text) → has_prefix s p ≡ true → (rest : Text) × (s ≡ p ++ rest)
has_prefix-eq s [] h = (s, refl)
has_prefix-eq [] (p ∷ ps) h = cc
has_prefix-eq (c ∷ s) (p ∷ ps) h =
    let r = has_prefix-eq s ps (ground arith) in (r.0, ground (arith, r.1))

pub text_leb_refl : (a : Text) → text_leb a a ≡ true
unfolding text_leb
text_leb_refl [] = refl
text_leb_refl (x ∷ a) = ground (arith, text_leb_refl a)

pub text_leb_total : (a b : Text) → text_leb a b ≡ false → text_leb b a ≡ true
unfolding text_leb
text_leb_total [] b h = cc
text_leb_total (x ∷ a) [] h = refl
text_leb_total (x ∷ a) (y ∷ b) h = ground (arith, text_leb_total a b)

pub text_leb_trans :
    (a b c : Text) → text_leb a b ≡ true → text_leb b c ≡ true → text_leb a c ≡ true
unfolding text_leb
text_leb_trans [] b c h k = refl
text_leb_trans (x ∷ a) [] c h k = cc
text_leb_trans (x ∷ a) (y ∷ b) [] h k = cc
text_leb_trans (x ∷ a) (y ∷ b) (z ∷ c) h k = ground (arith, text_leb_trans a b c)

pub text_leb_antisym : (a b : Text) → text_leb a b ≡ true → text_leb b a ≡ true → a ≡ b
unfolding text_leb
text_leb_antisym [] [] h k = refl
text_leb_antisym [] (y ∷ b) h k = cc
text_leb_antisym (x ∷ a) [] h k = cc
text_leb_antisym (x ∷ a) (y ∷ b) h k = ground (arith, text_leb_antisym a b)

pub text_eq-append : (p s t : Text) → text_eq (p ++ s) (p ++ t) ≡ text_eq s t
text_eq-append [] s t = refl
text_eq-append (c ∷ p) s t = ground (arith, text_eq-append p s t)

pub text_eq-longer : (c : ℕ) (p s : Text) → text_eq (c ∷ p ++ s) s ≡ false
text_eq-longer c p s = elim (Bool-cases (text_eq (c ∷ p ++ s) s)) [
  | inr e ↦ e
  | inl e ↦
      let same = ap length ((text_eq_iff (c ∷ p ++ s) s).0 e) in
      absurd (ground (arith, length-append p s))
]

trim_suffix_self : (s : Text) → trim_suffix s s ≡ []
unfolding trim_suffix
trim_suffix_self [] = refl
trim_suffix_self (c ∷ s) = rw (same_refl (c ∷ s)) refl

pub trim_suffix-append : (p s : Text) → trim_suffix (p ++ s) s ≡ p
unfolding trim_suffix
trim_suffix-append [] s = trim_suffix_self s
trim_suffix-append (c ∷ p) s = rw (text_eq-longer c p s, trim_suffix-append p s) refl
