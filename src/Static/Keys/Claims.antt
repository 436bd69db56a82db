-- ===== src/Static/Keys/Claims.antt =====
-- claim of internal/static/manifest.go: no two names of a directory share a key.
use go_solid.Prelude.{
  Text, text_comparable, Option, none, some, List, [], ◌∷◌, Bool, true, not, ◌&&◌, GoMap, lookup,
  insert, lookup-insert, lookup-nil, is_some, all, contains, ◌≡◌, refl, arith, inl, inr,
  Option-cases,
}
use go_solid.Static.Keys.{Collision, Kind, claim, claimed_by}

-- Who claims what: the key, the path and the kind.
abbrev pub Claim : Type 0
Claim = Text × Text × Kind

-- The claims of one directory, up to the first collision.
abbrev pub claim_all : List Claim → GoMap Text Text → Option Collision
claim_all [] claimed = none
claim_all ((key, by, kind) ∷ cs) claimed =
    let rest = claim_all cs (claim claimed key by kind).1 in
    elim (claim claimed key by kind).0 [ some c ↦ some c | none ↦ rest ]

abbrev pub distinct : List Text → Bool
distinct [] = true
distinct (k ∷ ks) = not (contains k ks) && distinct ks

abbrev pub claim_keys : List Claim → List Text
claim_keys [] = []
claim_keys (c ∷ cs) = c.0 ∷ claim_keys cs

abbrev unclaimed : GoMap Text Text → List Text → Bool
unclaimed claimed = all (λ k. not (is_some (lookup k claimed)))

unclaimed-insert :
    (claimed : GoMap Text Text) (key by : Text) (ks : List Text)
    → unclaimed (insert key by claimed) ks ≡ (not (contains key ks) && unclaimed claimed ks)
unclaimed-insert claimed key by [] = refl
unclaimed-insert claimed key by (k ∷ ks) =
    ground (arith, unclaimed-insert claimed key by ks, lookup-insert key k by claimed)

claims_from :
    (cs : List Claim) (claimed : GoMap Text Text)
    → is_some (claim_all cs claimed)
      ≡ not (unclaimed claimed (claim_keys cs) && distinct (claim_keys cs))
unfolding claim
claims_from [] claimed = refl
claims_from ((key, by, kind) ∷ cs) claimed = elim (Option-cases (lookup key claimed)) [
  | inr (previous, e) ↦ ground (arith, e)
  | inl e ↦
      let next = insert key (claimed_by by kind) claimed in
      rw e (
        ground (
          arith,
          e,
          claims_from cs next,
          unclaimed-insert claimed key (claimed_by by kind) (claim_keys cs),
        ))
]

unclaimed-nil : (ks : List Text) → unclaimed [] ks ≡ true
unclaimed-nil [] = refl
unclaimed-nil (k ∷ ks) = ground (arith, unclaimed-nil ks, lookup-nil {V = Text} k)

-- The claims of a directory end in a collision exactly if two of them are for one key.
pub is_some-claim_all :
    (cs : List Claim) → is_some (claim_all cs []) ≡ not (distinct (claim_keys cs))
is_some-claim_all cs = ground (arith, claims_from cs [], unclaimed-nil (claim_keys cs))
