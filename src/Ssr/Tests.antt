-- ===== src/Ssr/Tests.antt =====
-- The server-side rendering of a component with one hole. A tree is the text, a program its segments, and the
-- props are the text that the hole shows.
use go_solid.Prelude.{
  contains_char, Text, text, text_comparable, none, some, List, [], ◌∷◌, ◌++◌, ◌==◌, true, false,
  lookup, insert, if◌then◌else◌, ◌≡◌, refl, arith,
}
use go_solid.Component.{Component}
use go_solid.Sources.{Reader, ok, failed}
use go_solid.Ssr.{Compiler, Segment, static, hole, attribute, read_failed, fine, refused}
use go_solid.Ssr.Programs.{Held, first_default, choose, analyze_text, analyze, get}
use go_solid.Ssr.Programs.Freshness.{asked, forgotten, run, uncached, get-uncached}
use go_solid.Ssr.Programs.Holding.{get-read_failed}
use go_solid.Ssr.Renderer.{
  Renderer, is_active, is_strict, write_attribute, write_segment, write_segments, render, markup,
  unrenderable, on_prepare,
}
use go_solid.Ssr.Renderer.Escaping.{ends, opens, in_text, statics, render-opens}
use go_solid.Ssr.Renderer.Strictness.{IsRendered, HasReasons, on_prepare-IsRendered}

abbrev escape : Text → Text
escape [] = []
escape (c ∷ s) = if c == b'<' then text "&lt;" ++ escape s else c ∷ escape s

escape-plain : (s : Text) → contains_char b'<' (escape s) ≡ false
escape-plain [] = refl
escape-plain (c ∷ s) = ground (arith, escape-plain s)

abbrev escape_quotes : Text → Text
escape_quotes [] = []
escape_quotes (c ∷ s) = if c == b'"' then text "&quot;" ++ escape_quotes s else c ∷ escape_quotes s

escape_quotes-plain : (s : Text) → contains_char b'"' (escape_quotes s) ≡ false
escape_quotes-plain [] = refl
escape_quotes-plain (c ∷ s) = ground (arith, escape_quotes-plain s)

abbrev paragraph : List (Segment Text)
paragraph =
    static (text "<p")
    ∷ attribute (text "title") false (text "t")
    ∷ static (text ">")
    ∷ hole (text "h")
    ∷ static (text "</p>")
    ∷ []

abbrev compiler : Compiler Text (List (Segment Text)) Text Text Text
compiler = record {
  parse = λ path content. some content;
  components = λ tree. record { name = text "Login"; default = true; program = paragraph } ∷ [];
  green = λ program. true;
  inert = λ program. true;
  red = λ program. [];
  segments = λ program. program;
  eval = λ plan props. ok props;
  display = λ v. some v;
  truthy = λ v. true;
  absent = λ v. false;
  is_false = λ v. false;
  to_string = λ v. v;
  escape_text = escape;
  escape_attr = escape_quotes;
}

abbrev login : Component
login = record {
  name = text "Login";
  path = text "/c/Login.tsx";
  ext = text ".tsx";
  export = [];
  mount_root_id = text "Login-go-solid-root";
}

abbrev reader : Reader
reader = record {
  read = λ path. ok (record { content = text "jsx"; stamp = text "1:3"; inline = false });
  stamp_of = λ path. ok (text "1:3");
  digest_of = λ path. none;
}

-- The same source, at a time when it cannot be opened
abbrev busy : Reader
busy = record reader { read = λ path. failed (text "too many open files") }

escaped : render compiler paragraph (text "<b>") ≡ fine (text "<p title=\"<b>\">&lt;b></p>")
unfolding render write_segments write_segment write_attribute
escaped = refl

get-uncached_example :
    (get compiler reader login
      (run compiler (asked reader login ∷ forgotten (text "Other") ∷ []) [])).0
    ≡ uncached compiler reader login
get-uncached_example =
    get-uncached compiler (λ name. text "/c/Login.tsx") (λ name. []) (λ path stamp. text "jsx")
      (asked reader login ∷ forgotten (text "Other") ∷ []) reader login
      ((refl, refl, λ stamp now. (_, refl, refl)), (tt, tt))
      (refl, refl, λ stamp now. (_, refl, refl))

nothing_yet : lookup {V = Held (List (Segment Text))} (text "Login") [] ≡ none
unfolding lookup
nothing_yet = refl

get-read_failed_example :
    (get compiler reader login (get compiler busy login []).1).0
    ≡ refused (read_failed (text "/c/Login.tsx") (text "too many open files"))
get-read_failed_example =
    get-read_failed compiler busy reader login [] (text "1:3") (text "too many open files")
      nothing_yet refl refl refl

render-opens_example :
    (opens in_text (text "<p title=\"<b>\">&lt;b></p>") ≡ opens in_text (statics paragraph))
    × (ends in_text (text "<p title=\"<b>\">&lt;b></p>") ≡ ends in_text (statics paragraph))
render-opens_example =
    render-opens compiler (escape-plain, escape_quotes-plain) paragraph (text "<b>")
      (text "<p title=\"<b>\">&lt;b></p>") (refl, (refl, refl), (refl, tt)) escaped

abbrev strict : Renderer (List (Segment Text))
strict = record { cfg = some (record { disabled = false; strict = true }); programs = [] }

is_strict_now : is_strict strict.cfg ≡ true
unfolding is_strict
is_strict_now = refl

prepared : (on_prepare compiler reader login strict).0 ≡ none
unfolding on_prepare unrenderable is_strict is_active get analyze analyze_text choose first_default
    lookup insert
prepared = refl

never_red : HasReasons compiler
never_red program other = absurd (ground arith)

on_prepare-IsRendered_example :
    IsRendered compiler
      (markup compiler reader login (text "<b>") (on_prepare compiler reader login strict).1).0
on_prepare-IsRendered_example =
    on_prepare-IsRendered compiler reader reader login (text "<b>") strict never_red is_strict_now
      prepared refl
