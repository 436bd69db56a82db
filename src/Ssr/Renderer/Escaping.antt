-- ===== src/Ssr/Renderer/Escaping.antt =====
-- Markup of internal/ssr/renderer.go: props open no tags and close none.
use go_solid.Prelude.{
  ℕ, suc, ◌+◌, Text, text, Option, none, some, List, [], ◌∷◌, ◌++◌, Bool, false, not, if◌then◌else◌,
  ◌==◌, ◌≡◌, refl, sym, ◌∙◌, ap, subst, arith, inl, inr, Bool-cases, append_assoc, contains_char,
  if_cases,
}
use go_solid.Sources.{Result, ok, failed}
use go_solid.Ssr.{Compiler, Segment, static, hole, attribute, unknown, Outcome, fine, refused}
use go_solid.Ssr.Renderer.{
  shown_value, write_attribute, evaluated, write_segment, written, write_segments, render,
}

-- Where in a page a reader of it stands: in text, in a tag, or in the value of an attribute, in double quotes
pub data Place : Type 0 where
  in_text in_tag in_quotes : Place

abbrev pub next_place : Place → ℕ → Place
next_place in_text c = if c == b'<' then in_tag else in_text
next_place in_tag c = if c == b'"' then in_quotes else if c == b'>' then in_text else in_tag
next_place in_quotes c = if c == b'"' then in_tag else in_quotes

abbrev pub ends : Place → Text → Place
ends p [] = p
ends p (c ∷ s) = ends (next_place p c) s

-- How many tags are opened on the way
abbrev pub is_opened : Place → ℕ → Bool
is_opened in_text c = c == b'<'
is_opened in_tag c = false
is_opened in_quotes c = false

abbrev pub opens : Place → Text → ℕ
opens p [] = 0
opens p (c ∷ s) = if is_opened p c then suc (opens (next_place p c) s) else opens (next_place p c) s

ends-append : (p : Place) (a b : Text) → ends p (a ++ b) ≡ ends (ends p a) b
ends-append p [] b = refl
ends-append p (c ∷ a) b = ends-append (next_place p c) a b

opens-append : (p : Place) (a b : Text) → opens p (a ++ b) ≡ opens p a + opens (ends p a) b
opens-append p [] b = ground arith
opens-append p (c ∷ a) b = ground (arith, opens-append (next_place p c) a b)

-- A text that leaves its reader where they stand, and opens no tag
abbrev Neutral : Place → Text → Type 0
Neutral p s = (ends p s ≡ p) × (opens p s ≡ 0)

Neutral-append : (p : Place) (a b : Text) → Neutral p a → Neutral p b → Neutral p (a ++ b)
Neutral-append p a b (ea, oa) (eb, ob) =
    (ends-append p a b ∙ ap (λ q. ends q b) ea ∙ eb, opens-append p a b ∙ rw (ea, oa, ob) refl)

Neutral-text : (s : Text) → contains_char b'<' s ≡ false → Neutral in_text s
Neutral-text [] h = (refl, refl)
Neutral-text (c ∷ s) h = elim (Bool-cases (c == b'<')) [
  | inl e ↦ absurd (ground arith)
  | inr e ↦ rw e (Neutral-text s (ground arith))
]

Neutral-quotes : (s : Text) → contains_char b'"' s ≡ false → Neutral in_quotes s
Neutral-quotes [] h = (refl, refl)
Neutral-quotes (c ∷ s) h = elim (Bool-cases (c == b'"')) [
  | inl e ↦ absurd (ground arith)
  | inr e ↦ rw e (Neutral-quotes s (ground arith))
]

-- A name of an attribute holds neither a quote nor the end of a tag.
abbrev pub IsName : Text → Type 0
IsName name = (contains_char b'"' name ≡ false) × (contains_char b'>' name ≡ false)

Neutral-name : (name : Text) → IsName name → Neutral in_tag name
Neutral-name [] h = (refl, refl)
Neutral-name (c ∷ s) (quoted, closed) = elim (Bool-cases (c == b'"')) [
  | inl e ↦ absurd (ground arith)
  | inr e ↦ elim (Bool-cases (c == b'>')) [
    | inl g ↦ absurd (ground arith)
    | inr g ↦ rw e (rw g (Neutral-name s (ground arith, ground arith)))
  ]
]

-- What the static segments hold, put together
abbrev pub statics : {Plan : Type 0} → List (Segment Plan) → Text
statics [] = []
statics (static html ∷ segs) = html ++ statics segs
statics (seg ∷ segs) = statics segs

-- Holes stand in text and attributes in tags, as far as the static segments before them say.
abbrev pub ArePlaced : {Plan : Type 0} → Place → List (Segment Plan) → Type 0
ArePlaced p [] = Unit
ArePlaced p (static html ∷ segs) = ArePlaced (ends p html) segs
ArePlaced p (hole plan ∷ segs) = (p ≡ in_text) × ArePlaced p segs
ArePlaced p (attribute name bool plan ∷ segs) = (p ≡ in_tag) × IsName name × ArePlaced p segs
ArePlaced p (unknown ∷ segs) = ArePlaced p segs

-- What the compiler's escapings leave out: a "<" of a text, and a double quote of an attribute's value
abbrev pub IsEscaping :
    {Tree Program Plan Value Props : Type 0} → Compiler Tree Program Plan Value Props → Type 0
IsEscaping compiler =
    ((s : Text) → contains_char b'<' (compiler.escape_text s) ≡ false)
    × ((s : Text) → contains_char b'"' (compiler.escape_attr s) ≡ false)

module _ {Tree Program Plan Value Props : Type 0}
    (compiler : Compiler Tree Program Plan Value Props) (escaping : IsEscaping compiler) where
  shown_value-Neutral : (o : Option Text) → Neutral in_text (shown_value compiler o)
  shown_value-Neutral none = (refl, refl)
  shown_value-Neutral (some s) = Neutral-text (compiler.escape_text s) (escaping.0 s)

  -- An attribute's value, from one quote to the other
  quoted-Neutral :
      (value : Text) → Neutral in_quotes value → Neutral in_tag (text "=\"" ++ value ++ text "\"")
  quoted-Neutral value (e, o) = (
    ends-append in_quotes value (text "\"") ∙ ap (λ q. ends q (text "\"")) e,
    opens-append in_quotes value (text "\"") ∙ rw (e, o) refl,
  )

  write_attribute-Neutral :
      (name : Text) (bool : Bool) (v : Value)
      → IsName name
      → Neutral in_tag (write_attribute compiler name bool v)
  unfolding write_attribute
  write_attribute-Neutral name bool v named =
      let value = compiler.escape_attr (compiler.to_string v) in
      let start = text " " ++ name in
      let start_neutral : Neutral in_tag start =
        Neutral-append in_tag (text " ") name (refl, refl) (Neutral-name name named) in
      let regrouped : start ++ text "=\"" ++ value ++ text "\""
          ≡ start ++ (text "=\"" ++ value ++ text "\"") =
        append_assoc (start ++ text "=\"") value (text "\"")
        ∙ append_assoc start (text "=\"") (value ++ text "\"") in
      let whole : Neutral in_tag (start ++ text "=\"" ++ value ++ text "\"") =
        subst (Neutral in_tag) (sym regrouped) (
          Neutral-append in_tag start (text "=\"" ++ value ++ text "\"") start_neutral
            (quoted-Neutral value (Neutral-quotes value (escaping.1 (compiler.to_string v))))) in
      let nothing : Neutral in_tag [] = (refl, refl) in
      if_cases (Neutral in_tag) bool _ _
        (λ b.
          if_cases (Neutral in_tag) (not (compiler.truthy v)) [] start (λ f. nothing)
            (λ t. start_neutral))
        (λ b.
          if_cases (Neutral in_tag) (compiler.absent v) [] _ (λ f. nothing)
            (λ t. if_cases (Neutral in_tag) (compiler.is_false v) [] _ (λ f. nothing) (λ g. whole)))

  -- What the segments have written, beside what the static ones hold
  abbrev Beside : Place → Text → Outcome Text → Type 0
  Beside p base (refused e) = Unit
  Beside p base (fine s) = (ends p s ≡ ends p base) × (opens p s ≡ opens p base)

  Quiet : Place → Outcome Text → Type 0
  Quiet p (refused e) = Unit
  Quiet p (fine s) = Neutral p s

  evaluated-Quiet :
      (p : Place) (r : Result Value) (write : Value → Text)
      → ((v : Value) → Neutral p (write v))
      → Quiet p (evaluated compiler r write)
  unfolding Quiet
  evaluated-Quiet p (failed e) write h = tt
  evaluated-Quiet p (ok v) write h = h v

  written-Beside :
      (p : Place) (base : Text) (first rest : Outcome Text)
      → Quiet p first
      → Beside p base rest
      → Beside p base (written compiler first rest)
  unfolding Quiet
  written-Beside p base (refused e) rest h k = tt
  written-Beside p base (fine s) (refused e) h k = tt
  written-Beside p base (fine s) (fine t) (es, os) (et, ot) = (
    ends-append p s t ∙ ap (λ q. ends q t) es ∙ et,
    ground (arith, opens-append p s t, ap (λ q. opens q t) es, os, ot),
  )

  static-Beside :
      (p : Place) (html base : Text) (rest : Outcome Text)
      → Beside (ends p html) base rest
      → Beside p (html ++ base) (written compiler (fine html) rest)
  static-Beside p html base (refused e) k = tt
  static-Beside p html base (fine t) (et, ot) = (
    ends-append p html t ∙ et ∙ sym (ends-append p html base),
    opens-append p html t ∙ ap (λ n. opens p html + n) ot ∙ sym (opens-append p html base),
  )

  write_segments-Beside :
      (p : Place) (segs : List (Segment Plan)) (props : Props)
      → ArePlaced p segs
      → Beside p (statics segs) (write_segments compiler segs props)
  unfolding write_segments write_segment
  write_segments-Beside p [] props placed = (refl, refl)
  write_segments-Beside p (static html ∷ segs) props placed =
      static-Beside p html (statics segs) (write_segments compiler segs props)
        (write_segments-Beside (ends p html) segs props placed)
  write_segments-Beside p (hole plan ∷ segs) props (here, placed) =
      written-Beside p (statics segs) _ (write_segments compiler segs props)
        (evaluated-Quiet p (compiler.eval plan props) _ (λ v.
          subst (λ q. Neutral q (shown_value compiler (compiler.display v))) (sym here)
            (shown_value-Neutral (compiler.display v))))
        (write_segments-Beside p segs props placed)
  write_segments-Beside p (attribute name bool plan ∷ segs) props (here, named, placed) =
      written-Beside p (statics segs) _ (write_segments compiler segs props)
        (evaluated-Quiet p (compiler.eval plan props) _ (λ v.
          subst (λ q. Neutral q (write_attribute compiler name bool v)) (sym here)
            (write_attribute-Neutral name bool v named)))
        (write_segments-Beside p segs props placed)
  write_segments-Beside p (unknown ∷ segs) props placed = tt

  -- Where the escaping of a text leaves no "<", that of an attribute's value no double quote, and a program's
  -- holes stand in text and its attributes, with names that hold no quote and no ">", in tags: the page
  -- that render gives for any props opens as many tags as the program's static segments by themselves,
  -- and a reader of it ends up where one of those does, in text, in a tag or in a quoted value.
  pub render-opens :
      (program : Program) (props : Props) (page : Text)
      → ArePlaced in_text (compiler.segments program)
      → render compiler program props ≡ fine page
      → (opens in_text page ≡ opens in_text (statics (compiler.segments program)))
        × (ends in_text page ≡ ends in_text (statics (compiler.segments program)))
  unfolding render
  render-opens program props page placed h = elim (Bool-cases (compiler.green program)) [
    | inr other ↦ absurd (ground (arith, other, h))
    | inl green ↦
        let wrote : write_segments compiler (compiler.segments program) props ≡ fine page =
          ground (arith, green, h) in
        let (e, o) =
          subst (Beside in_text (statics (compiler.segments program))) wrote
            (write_segments-Beside in_text (compiler.segments program) props placed) in
        (o, e)
  ]
