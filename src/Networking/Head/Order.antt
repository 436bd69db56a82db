-- ===== src/Networking/Head/Order.antt =====
-- internal/networking/html.go: DeterministicOutput makes Build the same for every order in which Go
-- iterates over the maps behind it.
use go_solid.Prelude.{
  text_leb_total, text_leb_trans, text_leb_antisym, Text, text, text_eq, text_eq_iff, text_leb,
  text_comparable, List, [], ◌∷◌, ◌++◌, Bool, true, false, GoMap, lookup, keys, map, insert_by,
  sort_by, if◌then◌else◌, ◌≡◌, refl, ◌∙◌, ap, subst, arith,
}
use go_solid.Networking.Head.{
  HtmlTag, unique_tag, name_leb, ordered_tags, ordered_attributes, or_empty, attributes_text,
  tag_text, tags_text, build,
}

-- Two iterations over one map: its keys are all different.
pub data Reorders : GoMap Text Text → GoMap Text Text → Type 0 where
  same : (m : GoMap Text Text) → Reorders m m
  skip : (e : Text × Text) (m m' : GoMap Text Text) → Reorders m m' → Reorders (e ∷ m) (e ∷ m')
  swap :
      (k j v w : Text) (m : GoMap Text Text)
      → text_eq k j ≡ false
      → Reorders ((k, v) ∷ (j, w) ∷ m) ((j, w) ∷ (k, v) ∷ m)
  then_on : (m m' m'' : GoMap Text Text) → Reorders m m' → Reorders m' m'' → Reorders m m''

-- Elements of different names take the same places in either order.
module _ {A : Type 0} (name : A → Text) where
  abbrev by_name : A → A → Bool
  by_name a b = text_leb (name a) (name b)

  insert_by-swap :
      (a b : A) (xs : List A)
      → text_eq (name a) (name b) ≡ false
      → insert_by by_name a (insert_by by_name b xs) ≡ insert_by by_name b (insert_by by_name a xs)
  insert_by-swap a b [] differ = ground (
    arith,
    text_leb_total (name a) (name b),
    text_leb_antisym (name a) (name b),
    text_eq_iff (name a) (name b),
  )
  insert_by-swap a b (x ∷ xs) differ = ground (
    arith,
    insert_by-swap a b xs differ,
    text_leb_total (name a) (name b),
    text_leb_antisym (name a) (name b),
    text_eq_iff (name a) (name b),
    text_leb_total (name a) (name x),
    text_leb_total (name b) (name x),
    text_leb_trans (name a) (name b) (name x),
    text_leb_trans (name b) (name a) (name x),
  )

sort_by-Reorders :
    (m m' : GoMap Text Text)
    → Reorders m m'
    → sort_by name_leb (map unique_tag m) ≡ sort_by name_leb (map unique_tag m')
sort_by-Reorders _ _ (same m) = refl
sort_by-Reorders _ _ (skip e m m' h) =
    ap (insert_by name_leb (unique_tag e)) (sort_by-Reorders m m' h)
sort_by-Reorders _ _ (swap k j v w m differ) =
    insert_by-swap (λ (t : HtmlTag). t.name) (unique_tag (k, v)) (unique_tag (j, w))
      (sort_by name_leb (map unique_tag m)) differ
sort_by-Reorders _ _ (then_on m m' m'' h k) = sort_by-Reorders m m' h ∙ sort_by-Reorders m' m'' k

keys-Reorders :
    (m m' : GoMap Text Text)
    → Reorders m m'
    → sort_by text_leb (keys m) ≡ sort_by text_leb (keys m')
keys-Reorders _ _ (same m) = refl
keys-Reorders _ _ (skip e m m' h) = ap (insert_by text_leb e.0) (keys-Reorders m m' h)
keys-Reorders _ _ (swap k j v w m differ) =
    insert_by-swap (λ (t : Text). t) k j (sort_by text_leb (keys m)) differ
keys-Reorders _ _ (then_on m m' m'' h k) = keys-Reorders m m' h ∙ keys-Reorders m' m'' k

lookup-Reorders : (m m' : GoMap Text Text) (q : Text) → Reorders m m' → lookup q m ≡ lookup q m'
unfolding lookup
lookup-Reorders _ _ q (same m) = refl
lookup-Reorders _ _ q (skip (k, v) m m' h) = ground (arith, lookup-Reorders m m' q h)
lookup-Reorders _ _ q (swap k j v w m differ) =
    ground (arith, text_eq_iff k q, text_eq_iff j q, text_eq_iff k j)
lookup-Reorders _ _ q (then_on m m' m'' h k) = lookup-Reorders m m' q h ∙ lookup-Reorders m' m'' q k

-- Two iterations over the maps of a list of tags
pub data ReordersTags : List HtmlTag → List HtmlTag → Type 0 where
  no_tags : ReordersTags [] []
  next_tag :
      (t u : HtmlTag) (ts us : List HtmlTag)
      → t.name ≡ u.name
      → t.inner_html ≡ u.inner_html
      → Reorders t.attributes u.attributes
      → ReordersTags ts us
      → ReordersTags (t ∷ ts) (u ∷ us)

attributes_text-Reorders :
    (m m' : GoMap Text Text) (names : List Text)
    → Reorders m m'
    → attributes_text m names ≡ attributes_text m' names
unfolding attributes_text
attributes_text-Reorders m m' [] h = refl
attributes_text-Reorders m m' (name ∷ names) h = λ i.
    text " "
    ++ name
    ++ text "=\""
    ++ or_empty (lookup-Reorders m m' name h i)
    ++ text "\""
    ++ attributes_text-Reorders m m' names h i

tag_text-Reorders :
    (t u : HtmlTag)
    → t.name ≡ u.name
    → t.inner_html ≡ u.inner_html
    → Reorders t.attributes u.attributes
    → tag_text true t ≡ tag_text true u
unfolding tag_text ordered_attributes
tag_text-Reorders t u names inner h =
    let attributes : attributes_text t.attributes (sort_by text_leb (keys t.attributes))
        ≡ attributes_text u.attributes (sort_by text_leb (keys u.attributes)) =
      attributes_text-Reorders t.attributes u.attributes _ h
      ∙ ap (attributes_text u.attributes) (keys-Reorders t.attributes u.attributes h) in
    λ i.
      text "<"
      ++ names i
      ++ attributes i
      ++ text ">"
      ++ inner i
      ++ text "</"
      ++ names i
      ++ text ">\n"

if-ReordersTags :
    (b : Bool) (ts us ts' us' : List HtmlTag)
    → ReordersTags ts us
    → ReordersTags ts' us'
    → ReordersTags (if b then ts else ts') (if b then us else us')
if-ReordersTags true ts us ts' us' h k = h
if-ReordersTags false ts us ts' us' h k = k

insert_by-ReordersTags :
    (t u : HtmlTag) (ts us : List HtmlTag)
    → t.name ≡ u.name
    → t.inner_html ≡ u.inner_html
    → Reorders t.attributes u.attributes
    → ReordersTags ts us
    → ReordersTags (insert_by name_leb t ts) (insert_by name_leb u us)
insert_by-ReordersTags t u _ _ names inner h no_tags = next_tag t u [] [] names inner h no_tags
insert_by-ReordersTags t u _ _ names inner h (next_tag t' u' ts us names' inner' h' k) =
    let rest = next_tag t' u' ts us names' inner' h' k in
    subst
      (λ b.
        ReordersTags (insert_by name_leb t (t' ∷ ts))
          (if b then u ∷ u' ∷ us else u' ∷ insert_by name_leb u us))
      (λ i. text_leb (names i) (names' i))
      (if-ReordersTags (name_leb t t') _ _ _ _ (next_tag t u (t' ∷ ts) (u' ∷ us) names inner h rest)
        (next_tag t' u' _ _ names' inner' h' (insert_by-ReordersTags t u ts us names inner h k)))

sort_by-ReordersTags :
    (ts us : List HtmlTag)
    → ReordersTags ts us
    → ReordersTags (sort_by name_leb ts) (sort_by name_leb us)
sort_by-ReordersTags _ _ no_tags = no_tags
sort_by-ReordersTags _ _ (next_tag t u ts us names inner h k) =
    insert_by-ReordersTags t u _ _ names inner h (sort_by-ReordersTags ts us k)

tags_text-ReordersTags :
    (ts us : List HtmlTag) → ReordersTags ts us → tags_text true ts ≡ tags_text true us
tags_text-ReordersTags _ _ no_tags = refl
tags_text-ReordersTags _ _ (next_tag t u ts us names inner h k) =
    λ i. tag_text-Reorders t u names inner h i ++ tags_text-ReordersTags ts us k i

ReordersTags-refl : (ts : List HtmlTag) → ReordersTags ts ts
ReordersTags-refl [] = no_tags
ReordersTags-refl (t ∷ ts) = next_tag t t ts ts refl refl (same t.attributes) (ReordersTags-refl ts)

append-ReordersTags :
    (ts us more : List HtmlTag) → ReordersTags ts us → ReordersTags (ts ++ more) (us ++ more)
append-ReordersTags _ _ more no_tags = ReordersTags-refl more
append-ReordersTags _ _ more (next_tag t u ts us names inner h k) =
    next_tag t u (ts ++ more) (us ++ more) names inner h (append-ReordersTags ts us more k)

sort_by-append :
    (ts more more' : List HtmlTag)
    → sort_by name_leb more ≡ sort_by name_leb more'
    → sort_by name_leb (ts ++ more) ≡ sort_by name_leb (ts ++ more')
sort_by-append [] more more' h = h
sort_by-append (t ∷ ts) more more' h = ap (insert_by name_leb t) (sort_by-append ts more more' h)

-- With DeterministicOutput set, Build gives one text for all orders in which Go may iterate over the
-- map of unique tags and over the attributes of the other tags.
pub build-Reorders :
    (unique unique' : GoMap Text Text) (rest rest' : List HtmlTag)
    → Reorders unique unique'
    → ReordersTags rest rest'
    → build (record { unique = unique; rest = rest; deterministic = true })
      ≡ build (record { unique = unique'; rest = rest'; deterministic = true })
unfolding build ordered_tags
build-Reorders unique unique' rest rest' h k =
    tags_text-ReordersTags _ _
      (sort_by-ReordersTags _ _ (append-ReordersTags rest rest' (map unique_tag unique) k))
    ∙ ap (tags_text true) (
        sort_by-append rest' (map unique_tag unique) (map unique_tag unique')
          (sort_by-Reorders unique unique' h))
