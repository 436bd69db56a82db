-- ===== src/Ssr/Renderer/Strictness.antt =====
-- OnPrepare and Markup of internal/ssr/renderer.go under Strict.
use go_solid.Prelude.{
  Text, Option, none, some, List, [], ◌∷◌, map, true, false, GoMap, ◌≡◌, ◌≢◌, refl, ap, ◌∙◌, sym,
  subst, arith, inl, inr, Bool-cases,
}
use go_solid.Component.{Component}
use go_solid.Sources.{Reader, Result, ok, failed, Result-cases}
use go_solid.Ssr.{
  Compiler, Red, Segment, static, hole, attribute, unknown, not_evaluated, unknown_segment, Outcome,
  fine, refused,
}
use go_solid.Ssr.Programs.{Held, get}
use go_solid.Ssr.Programs.Holding.{get_again, get-failed}
use go_solid.Ssr.Renderer.{
  SsrConfig, Renderer, Reason, of_red, is_active, is_strict, evaluated, write_segment, written,
  write_segments, render, render_outcome, markup, reasons_of, unrenderable, unless_none, on_prepare,
}

module _ {Tree Program Plan Value Props : Type 0}
    (compiler : Compiler Tree Program Plan Value Props) where
  -- A markup, or the failure to evaluate or to know a segment
  abbrev pub IsRendered : Outcome Text → Type 0
  IsRendered (fine page) = Unit
  IsRendered (refused (not_evaluated e)) = Unit
  IsRendered (refused unknown_segment) = Unit
  IsRendered (refused _) = ⊥

  evaluated-IsRendered :
      (r : Result Value) (write : Value → Text) → IsRendered (evaluated compiler r write)
  evaluated-IsRendered (failed e) write = tt
  evaluated-IsRendered (ok v) write = tt

  write_segment-IsRendered :
      (seg : Segment Plan) (props : Props) → IsRendered (write_segment compiler seg props)
  unfolding write_segment
  write_segment-IsRendered (static html) props = tt
  write_segment-IsRendered (hole plan) props = evaluated-IsRendered (compiler.eval plan props) _
  write_segment-IsRendered (attribute name bool plan) props =
      evaluated-IsRendered (compiler.eval plan props) _
  write_segment-IsRendered unknown props = tt

  written-IsRendered :
      (first rest : Outcome Text)
      → IsRendered first
      → IsRendered rest
      → IsRendered (written compiler first rest)
  written-IsRendered (refused e) rest h k = h
  written-IsRendered (fine s) (refused e) h k = k
  written-IsRendered (fine s) (fine t) h k = tt

  write_segments-IsRendered :
      (segs : List (Segment Plan)) (props : Props) → IsRendered (write_segments compiler segs props)
  unfolding write_segments
  write_segments-IsRendered [] props = tt
  write_segments-IsRendered (seg ∷ segs) props =
      written-IsRendered (write_segment compiler seg props) (write_segments compiler segs props)
        (write_segment-IsRendered seg props) (write_segments-IsRendered segs props)

  -- What is not green has a red part.
  abbrev pub HasReasons : Type 0
  HasReasons = (program : Program) → compiler.green program ≡ false → compiler.red program ≢ []

  map-nil : (reds : List Red) → map of_red reds ≡ [] → reds ≡ []
  map-nil [] h = refl
  map-nil (red ∷ reds) h = absurd (ground arith)

  reasons_of-IsRendered :
      (out : Outcome Program) (props : Props)
      → HasReasons
      → reasons_of compiler out ≡ []
      → IsRendered (render_outcome compiler out props)
  unfolding render
  reasons_of-IsRendered (refused e) props reasons h = absurd (ground arith)
  reasons_of-IsRendered (fine program) props reasons h =
      elim (Bool-cases (compiler.green program)) [
        | inl green ↦ rw green (write_segments-IsRendered (compiler.segments program) props)
        | inr other ↦
            absurd
              (reasons program other (map-nil (compiler.red program) (ground (arith, other, h))))
      ]

  asked_again :
      (reader later : Reader) (comp : Component) (entries : GoMap Text (Held Program))
      → later.stamp_of comp.path ≡ reader.stamp_of comp.path
      → reasons_of compiler (get compiler reader comp entries).0 ≡ []
      → (get compiler later comp (get compiler reader comp entries).1).0
        ≡ (get compiler reader comp entries).0
  asked_again reader later comp entries same clear =
      elim (Result-cases (reader.stamp_of comp.path)) [
        | inr (stamp, now) ↦ get_again compiler reader later comp entries stamp now (same ∙ now)
        | inl (e, gone) ↦
            absurd (ground (arith, clear, get-failed compiler reader comp entries e gone))
      ]

  unless_none-none :
      (out : List Reason × Renderer Program)
      → (unless_none compiler out).0 ≡ none
      → (out.0 ≡ []) × ((unless_none compiler out).1 ≡ out.1)
  unless_none-none ([], r) h = (refl, refl)
  unless_none-none (reason ∷ reasons, r) h = absurd (ground arith)

  is_strict-active : (cfg : Option SsrConfig) → is_strict cfg ≡ true → is_active cfg ≡ true
  unfolding is_strict is_active
  is_strict-active none h = ground arith
  is_strict-active (some cfg) h = ground arith

  -- Under Strict, where a program that is not green has a red part, OnPrepare gives no error and the source has the same stamp when Markup is called after it: Markup
  -- gives a text, or fails because a slot cannot be evaluated or a segment is of no known type. In particular
  -- the component is found and needs no client.
  pub on_prepare-IsRendered :
      (reader later : Reader) (comp : Component) (props : Props) (r : Renderer Program)
      → HasReasons
      → is_strict r.cfg ≡ true
      → (on_prepare compiler reader comp r).0 ≡ none
      → later.stamp_of comp.path ≡ reader.stamp_of comp.path
      → IsRendered (markup compiler later comp props (on_prepare compiler reader comp r).1).0
  unfolding on_prepare unrenderable markup
  on_prepare-IsRendered reader later comp props r reasons strict passed same =
      let after = get compiler reader comp r.programs in
      let checked : on_prepare compiler reader comp r
          ≡ unless_none compiler (reasons_of compiler after.0, record r { programs = after.1 }) =
        ground (arith, strict, is_strict-active r.cfg strict) in
      let (clear, same_renderer) =
        unless_none-none (reasons_of compiler after.0, record r { programs = after.1 })
          (ap (λ (out : Option (List Reason) × Renderer Program). out.0) (sym checked) ∙ passed) in
      let kept =
        ap (λ (out : Option (List Reason) × Renderer Program). out.1) checked ∙ same_renderer in
      let served : (markup compiler later comp props (record r { programs = after.1 })).0
          ≡ render_outcome compiler (get compiler later comp after.1).0 props =
        rw (is_strict-active r.cfg strict, markup) refl in
      subst (λ (now : Renderer Program). IsRendered (markup compiler later comp props now).0)
        (sym kept)
        (subst IsRendered (sym served) (
          subst (λ out. IsRendered (render_outcome compiler out props))
            (sym (asked_again reader later comp r.programs same clear))
            (reasons_of-IsRendered after.0 props reasons clear)))
