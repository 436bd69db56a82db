-- ===== src/Types/Mapper/Fields.antt =====
-- pickField of internal/types/mapper.go: the field that it picks of those with one name.
use go_solid.Prelude.{
  ℕ, Option, none, some, List, [], ◌∷◌, ◌++◌, ◌&&◌, ◌||◌, not, Bool, true, keep, all, min, ltb, leb,
  ◌==◌, ◌≡◌, ◌⊎◌, refl, sym, ◌∙◌, ap, arith, inl, inr, Bool-cases,
}
use go_solid.Types.Mapper.{JsonField, only, or_else, shallowest_of, shallowest, pick_field}

-- encoding/json's rule: a field that is less deep, or as deep and the only one that a tag names.
abbrev pub dominates : JsonField → JsonField → Bool
dominates w f = ltb w.depth f.depth || w.depth == f.depth && w.tagged && not f.tagged

-- A field is in a list once, and all others fail a test.
abbrev pub Alone : (JsonField → Bool) → JsonField → List JsonField → Type 0
Alone others w group =
    (before after : List JsonField) × (group ≡ before ++ w ∷ after)
    × (all others before ≡ true)
    × (all others after ≡ true)

kept_none :
    (p : JsonField → Bool) (fs : List JsonField) → keep p fs ≡ [] → all (λ f. not (p f)) fs ≡ true
kept_none p [] h = refl
kept_none p (f ∷ fs) h = ground (arith, kept_none p fs)

kept_one :
    (p : JsonField → Bool) (w : JsonField) (fs : List JsonField)
    → keep p fs ≡ (w ∷ [])
    → Alone (λ f. not (p f)) w fs × (p w ≡ true)
kept_one p w [] h = absurd (ground arith)
kept_one p w (f ∷ fs) h = elim (Bool-cases (p f)) [
  | inl yes_ ↦
      let heads : f ≡ w = ground arith in
      let tails : keep p fs ≡ [] = ground arith in
      (([], fs, ap (λ x. x ∷ fs) heads, refl, kept_none p fs tails), ap p (sym heads) ∙ yes_)
  | inr no_ ↦
      let rest : keep p fs ≡ (w ∷ []) = ground arith in
      let ((before, after, e, b, a), holds) = kept_one p w fs rest in
      ((f ∷ before, after, ap (λ x. f ∷ x) e, ground arith, a), holds)
]

only-one : (fs : List JsonField) (w : JsonField) → only fs ≡ some w → fs ≡ (w ∷ [])
only-one [] w h = absurd (ground arith)
only-one (f ∷ []) w h = ground arith
only-one (f ∷ g ∷ fs) w h = absurd (ground arith)

all_parts :
    (q : JsonField → Bool) (before after : List JsonField) (w : JsonField)
    → all q (before ++ w ∷ after) ≡ true
    → (all q before ≡ true) × (q w ≡ true) × (all q after ≡ true)
all_parts q [] after w h = (refl, ground arith, ground arith)
all_parts q (f ∷ before) after w h =
    let (b, own, a) = all_parts q before after w (ground arith) in (ground arith, own, a)

all_both :
    (p q r : JsonField → Bool) (fs : List JsonField)
    → ((f : JsonField) → p f ≡ true → q f ≡ true → r f ≡ true)
    → all p fs ≡ true
    → all q fs ≡ true
    → all r fs ≡ true
all_both p q r [] k h h' = refl
all_both p q r (f ∷ fs) k h h' =
    let own : r f ≡ true = k f (ground arith) (ground arith) in
    let rest : all r fs ≡ true = all_both p q r fs k (ground arith) (ground arith) in ground arith

shallowest_of-below :
    (d : ℕ) (fs : List JsonField)
    → (leb (shallowest_of d fs) d ≡ true) × (all (λ f. leb (shallowest_of d fs) f.depth) fs ≡ true)
shallowest_of-below d [] = (ground arith, refl)
shallowest_of-below d (f ∷ fs) =
    let (own, rest) = shallowest_of-below (min d f.depth) fs in (ground arith, ground arith)

shallowest-below : (fs : List JsonField) → all (λ f. leb (shallowest fs) f.depth) fs ≡ true
shallowest-below [] = refl
shallowest-below (f ∷ fs) = let (own, rest) = shallowest_of-below f.depth fs in ground arith

-- A field alone in passing a test, in a group none of which is above a depth
Alone-dominates :
    (p : JsonField → Bool) (m : ℕ) (w : JsonField) (group : List JsonField)
    → Alone (λ f. not (p f)) w group
    → all (λ f. leb m f.depth) group ≡ true
    → ((f : JsonField) → not (p f) ≡ true → leb m f.depth ≡ true → dominates w f ≡ true)
    → Alone (dominates w) w group
Alone-dominates p m w group (before, after, e, b, a) below k =
    let (b', own, a') =
      all_parts (λ f. leb m f.depth) before after w
        (ap (all (λ f. leb m f.depth)) (sym e) ∙ below) in
    (
      before,
      after,
      e,
      all_both _ _ (dominates w) before k b b',
      all_both _ _ (dominates w) after k a a',
    )

keep_twice :
    (p q : JsonField → Bool) (fs : List JsonField) → keep q (keep p fs) ≡ keep (λ f. p f && q f) fs
keep_twice p q [] = refl
keep_twice p q (f ∷ fs) = ground (arith, keep_twice p q fs)

-- The first of two picks, or the second
or_else-cases :
    (first second : Option JsonField) (w : JsonField)
    → or_else first second ≡ some w
    → (first ≡ some w) ⊎ (second ≡ some w)
or_else-cases (some f) second w h = inl h
or_else-cases none second w h = inr h

-- The cases of pickField
picked :
    (group : List JsonField) (w : JsonField)
    → pick_field group ≡ some w
    → let top = keep (λ f. f.depth == shallowest group) group in
      (group ≡ (w ∷ [])) ⊎ ((top ≡ (w ∷ [])) ⊎ (keep (λ f. f.tagged) top ≡ (w ∷ [])))
unfolding pick_field
picked group w h =
    let top = keep (λ f. f.depth == shallowest group) group in
    let tagged = keep (λ f. f.tagged) top in
    elim (or_else-cases (only group) (or_else (only top) (only tagged)) w h) [
      | inl e ↦ inl (only-one group w e)
      | inr e ↦ elim (or_else-cases (only top) (only tagged) w e) [
        | inl e1 ↦ inr (inl (only-one top w e1))
        | inr e1 ↦ inr (inr (only-one tagged w e1))
      ]
    ]

-- A field that pickField picks stands in the group once, and any other field of the group is deeper, or is as deep
-- and not named by a tag where the picked one is.
pub pick_field-Alone :
    (group : List JsonField) (w : JsonField)
    → pick_field group ≡ some w
    → Alone (dominates w) w group
pick_field-Alone group w h =
    let m = shallowest group in
    let top : JsonField → Bool = λ f. f.depth == m in
    elim (picked group w h) [
      | inl e ↦ ([], [], e, refl, refl)
      | inr (inl e) ↦
          let (alone, holds) = kept_one top w group e in
          Alone-dominates top m w group alone (shallowest-below group) (λ f a b. ground arith)
      | inr (inr e) ↦
          let both : JsonField → Bool = λ f. f.depth == m && f.tagged in
          let (alone, holds) =
            kept_one both w group (sym (keep_twice top (λ f. f.tagged) group) ∙ e) in
          Alone-dominates both m w group alone (shallowest-below group) (λ f a b. ground arith)
    ]
