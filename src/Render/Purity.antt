-- ===== src/Render/Purity.antt =====
-- render.go: what one render leaves in the cache that all renders share.
use go_solid.Prelude.{
  Text, text_comparable, Option, some, ◌&&◌, Bool, true, false, lookup, lookup-insert, ◌≡◌, sym,
  ◌∙◌, subst, ◌⊎◌, inl, inr, Option-cases, arith, if◌then◌else◌,
}
use go_solid.Caching.{Rendered, CacheKey, key_comparable, key_eq}
use go_solid.Caching.MemCache.{MemCache, put}
use go_solid.Render.{
  DiskLayer, Engine, Settings, RenderData, World, Answer, done, fails, panics, ◌>>=◌, go_on,
}
use go_solid.Render.Steps.{tell, transmit, or_fail}
use go_solid.Render.Respond.{checked_response, render0}
use go_solid.Render.Effects.{IsBare, Effects, Builds, Any, Post}
use go_solid.Render.Paths.{checked_response-Post}

-- No artifact in the cache has anything of a response.
abbrev pub IsShared : MemCache → Type 0
IsShared m = (key : CacheKey) (r : Rendered) → lookup key m.entries ≡ some r → IsBare r

lookup-put :
    (m : MemCache) (key k : CacheKey) (artifact : Rendered)
    → lookup k (put m key artifact).entries
      ≡ (if m.enabled && key_eq key k then some artifact else lookup k m.entries)
unfolding put
lookup-put m key k artifact = ground (arith, lookup-insert key k artifact m.entries)

first_or :
    (b : Bool) (a r : Rendered) (o : Option Rendered)
    → (if b then some a else o) ≡ some r
    → (a ≡ r) ⊎ (o ≡ some r)
first_or true a r o h = inl (ground arith)
first_or false a r o h = inr h

put-IsShared :
    (m : MemCache) (key : CacheKey) (artifact : Rendered)
    → IsBare artifact
    → IsShared m
    → IsShared (put m key artifact)
put-IsShared m key artifact bare shared k r found =
    elim (first_or _ artifact r _ (sym (lookup-put m key k artifact) ∙ found)) [
      | inl same ↦ subst IsBare same bare
      | inr old ↦ shared k r old
    ]

module _ {D : Type 0} where
  abbrev pub Shares : World D → World D → Type 0
  Shares w w' = IsShared w.mem → IsShared w'.mem

  -- What the disk gives is an artifact, as this package writes it there.
  abbrev pub IsBareLayer : DiskLayer D → Type 0
  IsBareLayer disk =
      (d : D) (key : CacheKey) (cached : Rendered)
      → (disk.load d key).0 ≡ some cached
      → IsBare cached

  Shares-Effects : Effects Shares Shares
  Shares-Effects = record {
    stay = λ w h. h;
    lost = λ h. h;
    then_ok = λ h k shared. k (h shared);
    then_lost = λ h k shared. k (h shared);
    on_report = λ w r t e f h. h;
    on_response = λ w r h. h;
  }

  Shares-Builds :
      (disk : DiskLayer D) (normalize : Text → Text)
      → IsBareLayer disk
      → Builds disk normalize Shares
  Shares-Builds disk normalize bare_layer = record {
    on_built = λ w entries h. h;
    on_index = λ w component sources h. h;
    on_miss = λ w key h. h;
    on_load =
        λ w key cached found. put-IsShared w.mem key cached (bare_layer w.disk key cached found);
    on_store = λ w key artifact after bare. put-IsShared w.mem key artifact bare;
  }

module _ {D Props : Type 0} (disk : DiskLayer D) (engine : Engine Props) (settings : Settings) where
  transmit-Shares :
      (call : RenderData Props) (resp : Rendered) (w : World D)
      → Shares w (transmit engine.quote call resp w).1
  unfolding transmit tell
  transmit-Shares call resp w = elim (Option-cases call.request) [
    | inl e ↦ rw (e, transmit) (λ h. h)
    | inr (request, e) ↦ rw (e, transmit) (λ h. h)
  ]

  finished :
      (call : RenderData Props) (w : World D) (r : Answer Rendered × World D)
      → Post Shares Shares Any w r
      → Shares w (go_on r (transmit engine.quote call)).1
  finished call w (done resp, w1) p h = transmit-Shares call resp w1 (p.follows.1 h)
  finished call w (fails e, w1) p h = p.follows h
  finished call w (panics d, w1) p h = p.follows h

  render0-Shares :
      (call : RenderData Props) (w : World D)
      → IsBareLayer disk
      → Shares w (render0 disk engine settings call w).1
  unfolding render0 ◌>>=◌ or_fail
  render0-Shares call w bare = elim (Option-cases call.cancelled) [
    | inl e ↦
        rw (e, render0)
          (finished call w (checked_response disk engine settings call w) (
            checked_response-Post disk engine settings Shares-Effects
              (Shares-Builds disk engine.normalize bare) call w))
    | inr (error, e) ↦ rw (e, render0) (λ h. h)
  ]

  -- If what the disk gives has neither HTML nor data islands, and no artifact in the memory cache
  -- had them before a render, then an artifact that the memory cache holds after it has none,
  -- whatever the render's props, middleware and answer.
  pub render0-IsBare :
      (call : RenderData Props) (w : World D)
      → IsBareLayer disk
      → IsShared w.mem
      → (key : CacheKey) (r : Rendered)
      → lookup key (render0 disk engine settings call w).1.mem.entries ≡ some r
      → IsBare r
  render0-IsBare call w bare shared = render0-Shares call w bare shared
