-- ===== src/Render/Ends.antt =====
-- What a step of render.go ends in, where it ends in a value.
use go_solid.Prelude.{Text, text_comparable, ◌≡◌, subst, inl, inr, Option-cases, arith}
use go_solid.Sources.{failed}
use go_solid.Caching.{key_comparable}
use go_solid.Networking.Events.{EventType}
use go_solid.Networking.HandlerMap.{Outcome, err, panic}
use go_solid.Render.{
  RenderData, World, Answer, done, fails, panics, Step, ◌>>=◌, go_on, wrapped, wrap,
}
use go_solid.Render.Steps.{told, tell, or_report, emit_event}
use go_solid.Render.Effects.{Any, Post}

done-injective : {A : Type 0} (a b : A) → done a ≡ done b → a ≡ b
done-injective a b h = ground arith

module _ {D A : Type 0} where
  abbrev EndsIn : (A → World D → Type 0) → Answer A × World D → Type 0
  EndsIn P (done a, w) = P a w
  EndsIn P (fails e, w) = Unit
  EndsIn P (panics d, w) = Unit

  -- What holds where a step ends in a value.
  pub record Ends (P : A → World D → Type 0) (r : Answer A × World D) : Type 0 where
    pub ends : EndsIn P r

module _ {D : Type 0} where
  go_on-Ends :
      {A B : Type 0} {P : A → World D → Type 0} {Q : B → World D → Type 0} (r : Answer A × World D)
      (next : A → Step D B)
      → Ends P r
      → ((a : A) (w : World D) → P a w → Ends Q (next a w))
      → Ends Q (go_on r next)
  go_on-Ends (done a, w) next h k = k a w h.ends
  go_on-Ends (fails e, w) next h k = record { ends = tt }
  go_on-Ends (panics d, w) next h k = record { ends = tt }

  pub bind-Ends :
      {A B : Type 0} {P : A → World D → Type 0} {Q : B → World D → Type 0} (w : World D)
      (m : Step D A) (next : A → Step D B)
      → Ends P (m w)
      → ((a : A) (w' : World D) → P a w' → Ends Q (next a w'))
      → Ends Q ((m >>= next) w)
  unfolding ◌>>=◌
  bind-Ends w m next h k = go_on-Ends (m w) next h k

  wrap-Ends :
      {A : Type 0} {P : A → World D → Type 0} (before : Text) (r : Answer A × World D)
      → Ends P r
      → Ends P (wrap before r)
  wrap-Ends before (done a, w) h = h
  wrap-Ends before (fails e, w) h = record { ends = tt }
  wrap-Ends before (panics d, w) h = h

  pub wrapped-Ends :
      {A : Type 0} {P : A → World D → Type 0} (before : Text) (w : World D) (m : Step D A)
      → Ends P (m w)
      → Ends P (wrapped before m w)
  unfolding wrapped
  wrapped-Ends before w m h = wrap-Ends before (m w) h

  abbrev pub Anyhow : {A : Type 0} → A → World D → Type 0
  Anyhow a w = Unit {0}

  pub anyhow : {A : Type 0} (r : Answer A × World D) → Ends Anyhow r
  anyhow (done a, w) = record { ends = tt }
  anyhow (fails e, w) = record { ends = tt }
  anyhow (panics d, w) = record { ends = tt }

  -- A step that is known to keep to a relation, and what it ends in.
  pub both-Ends :
      {A : Type 0} {R F : World D → World D → Type 0} {P : A → World D → Type 0} (w : World D)
      (r : Answer A × World D)
      → Post R F Any w r
      → Ends P r
      → Ends (λ a w'. P a w' × R w w') r
  both-Ends w (done a, w') p h = record { ends = (h.ends, p.follows.1) }
  both-Ends w (fails e, w') p h = record { ends = tt }
  both-Ends w (panics d, w') p h = record { ends = tt }

  -- The same as a postcondition.
  pub refine-Post :
      {A : Type 0} {R F : World D → World D → Type 0} {V : A → Type 0} (w : World D)
      (r : Answer A × World D)
      → Post R F Any w r
      → Ends (λ a w'. V a) r
      → Post R F V w r
  refine-Post w (done a, w') p h = record { follows = (h.ends, p.follows.1) }
  refine-Post w (fails e, w') p h = record { follows = p.follows }
  refine-Post w (panics d, w') p h = record { follows = p.follows }

  pub Post-Ends :
      {A : Type 0} {R F : World D → World D → Type 0} {V : A → Type 0} (w : World D)
      (r : Answer A × World D)
      → Post R F V w r
      → Ends (λ a w'. V a × R w w') r
  Post-Ends w (done a, w') p = record { ends = p.follows }
  Post-Ends w (fails e, w') p = record { ends = tt }
  Post-Ends w (panics d, w') p = record { ends = tt }

  pub ends_at :
      {A : Type 0} {P : A → World D → Type 0} (r : Answer A × World D) (a : A)
      → Ends P r
      → r.0 ≡ done a
      → P a r.1
  ends_at {P = P} (done b, w) a h e = subst (λ x. P x w) (done-injective b a e) h.ends
  ends_at (fails e', w) a h e = absurd (ground arith)
  ends_at (panics d, w) a h e = absurd (ground arith)

  pub map-Post :
      {A : Type 0} {R F : World D → World D → Type 0} {V U : A → Type 0} (w : World D)
      (r : Answer A × World D)
      → Post R F V w r
      → ((a : A) → V a → U a)
      → Post R F U w r
  map-Post w (done a, w') p k = record { follows = (k a p.follows.0, p.follows.1) }
  map-Post w (fails e, w') p k = record { follows = p.follows }
  map-Post w (panics d, w') p k = record { follows = p.follows }

  pub weaken :
      {A : Type 0} {P Q : A → World D → Type 0} (r : Answer A × World D)
      → Ends P r
      → ((a : A) (w : World D) → P a w → Q a w)
      → Ends Q r
  weaken (done a, w) h k = record { ends = k a w h.ends }
  weaken (fails e, w) h k = record { ends = tt }
  weaken (panics d, w) h k = record { ends = tt }

  told-Ends :
      {A : Type 0} {P : A → World D → Type 0} (e : Text) (o : Outcome) (f : Text → Text)
      (w : World D)
      → Ends {A = A} P (told (fails e) o f, w)
  told-Ends e Outcome.ok f w = record { ends = tt }
  told-Ends e (err d) f w = record { ends = tt }
  told-Ends e (panic d) f w = record { ends = tt }

  -- A failure that is reported ends in no value.
  pub report-Ends :
      {A Props : Type 0} {P : A → World D → Type 0} (call : RenderData Props) (t : EventType)
      (e : Text) (w : World D)
      → Ends {A = A} P (or_report call t (failed e) w)
  unfolding or_report emit_event tell
  report-Ends call t e w = elim (Option-cases call.request) [
    | inl missing ↦ rw (missing, or_report, emit_event) (record { ends = tt })
    | inr (request, present) ↦ rw (present, or_report, emit_event) (told-Ends e _ _ _)
  ]
