-- ===== src/Types/Cache/Pruning.antt =====
-- Prune of internal/types/cache.go: which files it removes.
use go_solid.Paths.{separator}
use go_solid.Prelude.{
  has_prefix, has_suffix, map, ◌++◌, ℕ, ◌+◌, Text, text_eq_iff, text_leb, text_comparable, Option,
  none, some, List, [], ◌∷◌, ◌&&◌, ◌||◌, not, Bool, true, false, lookup, delete, lookup-delete,
  keys, contains-keys, keep, contains, contains-keep, contains-sort_by, sort_by, is_some,
  if◌then◌else◌, ◌≡◌, refl, sym, ◌∙◌, ap, arith, inl, inr, Bool-cases, Option-cases,
}
use go_solid.Io.{File, Files}
use go_solid.Types.Cache.{
  cache_entry_ext, path_of, TypeCache, Outside, CacheError, persists, is_stale, remove_each, prune,
}

module _ (outside : Outside) where
  next_gone :
      (path : Text) (paths : List Text) (fs : Files) (q : Text)
      → (if contains q paths then none else lookup q (delete path fs))
        ≡ (if contains q (path ∷ paths) then none else lookup q fs)
  next_gone path paths fs q =
      ground (arith, lookup-delete path q fs, text_eq_iff path q, text_eq_iff q path)

  remove_each-next :
      (path : Text) (paths : List Text) (fs : Files) (removed : ℕ)
      → outside.remove_fault path ≡ none
      → remove_each outside (path ∷ paths) fs removed
        ≡ remove_each outside paths (delete path fs) (removed + 1)
  unfolding remove_each
  remove_each-next path paths fs removed gone = rw (gone, remove_each) refl

  abbrev stale_paths : TypeCache → List Text → Files → List Text
  stale_paths c known fs = keep (is_stale outside c known) (sort_by text_leb (keys fs))

  prune-runs :
      (c : TypeCache) (known : List Text) (fs : Files)
      → (not (persists c) || outside.is_missing c.root) ≡ false
      → outside.walk_fault ≡ none
      → prune outside c known fs ≡ remove_each outside (stale_paths c known fs) fs 0
  unfolding prune
  prune-runs c known fs on walked = ground (arith, on, walked)

  -- Without an error, the files of the list go.
  remove_each-all :
      (paths : List Text) (fs : Files) (removed : ℕ) (q : Text)
      → (remove_each outside paths fs removed).2 ≡ none
      → lookup q (remove_each outside paths fs removed).0
        ≡ (if contains q paths then none else lookup q fs)
  unfolding remove_each
  remove_each-all [] fs removed q fine = refl
  remove_each-all (path ∷ paths) fs removed q fine =
      elim (Option-cases (outside.remove_fault path)) [
        | inr (e, refused) ↦ absurd (ground (arith, refused))
        | inl gone ↦
            let next = remove_each-next path paths fs removed gone in
            ap (λ (out : Files × ℕ × Option CacheError). lookup q out.0) next
            ∙ remove_each-all paths (delete path fs) (removed + 1) q
                (ap (λ (out : Files × ℕ × Option CacheError). out.2) (sym next) ∙ fine)
            ∙ next_gone path paths fs q
      ]

  -- Whatever fails, no other file goes.
  remove_each-others :
      (paths : List Text) (fs : Files) (removed : ℕ) (q : Text)
      → contains q paths ≡ false
      → lookup q (remove_each outside paths fs removed).0 ≡ lookup q fs
  unfolding remove_each
  remove_each-others [] fs removed q other = refl
  remove_each-others (path ∷ paths) fs removed q other =
      elim (Option-cases (outside.remove_fault path)) [
        | inr (e, refused) ↦ rw (refused, remove_each) refl
        | inl gone ↦
            ap (λ (out : Files × ℕ × Option CacheError). lookup q out.0)
              (remove_each-next path paths fs removed gone)
            ∙ remove_each-others paths (delete path fs) (removed + 1) q (ground arith)
            ∙ ground (arith, lookup-delete path q fs, text_eq_iff path q, text_eq_iff q path)
      ]

  stale_listed :
      (c : TypeCache) (known : List Text) (fs : Files) (q : Text)
      → contains q (keep (is_stale outside c known) (sort_by text_leb (keys fs)))
        ≡ (is_some (lookup q fs) && is_stale outside c known q)
  stale_listed c known fs q =
      contains-keep (is_stale outside c known) q (sort_by text_leb (keys fs))
      ∙ ap (λ b. b && is_stale outside c known q)
          (contains-sort_by text_leb q (keys fs) ∙ contains-keys q fs)

  stale_or_not :
      (b : Bool) (o : Option File) → (if is_some o && b then none else o) ≡ (if b then none else o)
  stale_or_not b none = ground arith
  stale_or_not true (some f) = refl
  stale_or_not false (some f) = refl

  -- Where the cache has a root that exists, a Prune that returns no error removes the files under the
  -- root that end as an entry does and are the Path of none of the known components, and no other file.
  pub lookup-prune :
      (c : TypeCache) (known : List Text) (fs : Files) (q : Text)
      → persists c ≡ true
      → outside.is_missing c.root ≡ false
      → (prune outside c known fs).2 ≡ none
      → lookup q (prune outside c known fs).0 ≡ (
          if has_prefix q (c.root ++ separator ∷ [])
            && not (contains q (map (path_of outside c) known))
            && has_suffix q cache_entry_ext
          then none
          else lookup q fs)
  unfolding prune
  lookup-prune c known fs q on there fine = elim (Option-cases outside.walk_fault) [
    | inr (e, refused) ↦ absurd (ground (arith, on, there, refused))
    | inl walked ↦
        let run = prune-runs c known fs (ground arith) walked in
        ap (λ (out : Files × ℕ × Option CacheError). lookup q out.0) run
        ∙ remove_each-all (stale_paths c known fs) fs 0 q
            (ap (λ (out : Files × ℕ × Option CacheError). out.2) (sym run) ∙ fine)
        ∙ ap (λ b. if b then none else lookup q fs) (stale_listed c known fs q)
        ∙ stale_or_not (is_stale outside c known q) (lookup q fs)
  ]

  -- Whatever error a Prune returns, and if it returns none, a file stays as it is that is not under the root, or does not end
  -- as an entry does, or is the Path of a known component.
  pub lookup-prune_kept :
      (c : TypeCache) (known : List Text) (fs : Files) (q : Text)
      → is_stale outside c known q ≡ false
      → lookup q (prune outside c known fs).0 ≡ lookup q fs
  unfolding prune
  lookup-prune_kept c known fs q kept =
      elim (Bool-cases (not (persists c) || outside.is_missing c.root)) [
        | inl off ↦ ground (arith, off)
        | inr on ↦ elim (Option-cases outside.walk_fault) [
          | inr (e, refused) ↦ ground (arith, on, refused)
          | inl walked ↦
              ap (λ (out : Files × ℕ × Option CacheError). lookup q out.0)
                (prune-runs c known fs on walked)
              ∙ remove_each-others (stale_paths c known fs) fs 0 q
                  (stale_listed c known fs q ∙ ground (arith, kept))
        ]
      ]
