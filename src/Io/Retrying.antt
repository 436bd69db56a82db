-- ===== src/Io/Retrying.antt =====
-- renameOver of internal/io/atomic.go: how often it tries and how long it waits.
use go_solid.Prelude.{
  ℕ, zero, suc, ◌*◌, Text, Option, Bool, true, false, not, ◌||◌, ltb, leb, is_some, all, length,
  if◌then◌else◌, ◌≡◌, refl, arith, inl, inr, Option-cases,
}
use go_solid.Io.{rename_loop, rename_over}

-- Whether one of the attempts of the given number, from one on, succeeds.
abbrev pub some_attempt : (ℕ → Option Text) → ℕ → ℕ → Bool
some_attempt rename zero attempt = false
some_attempt rename (suc left) attempt =
    let rest = some_attempt rename left (suc attempt) in not (is_some (rename attempt)) || rest

loop-some_attempt :
    (rename : ℕ → Option Text) (left attempt backoff : ℕ)
    → is_some (rename_loop rename (suc left) attempt backoff).1
      ≡ not (some_attempt rename (suc left) attempt)
unfolding rename_loop
loop-some_attempt rename zero attempt backoff = ground arith
loop-some_attempt rename (suc left) attempt backoff = ground (
  arith,
  loop-some_attempt rename left (suc attempt) (if ltb backoff 10000 then backoff * 2 else backoff),
)

loop-pauses :
    (rename : ℕ → Option Text) (left attempt backoff : ℕ)
    → ltb backoff 20000 ≡ true
    → (all (λ p. ltb p 20000) (rename_loop rename left attempt backoff).0 ≡ true)
      × (leb (length (rename_loop rename left attempt backoff).0) left ≡ true)
unfolding rename_loop
loop-pauses rename zero attempt backoff h = (refl, refl)
loop-pauses rename (suc left) attempt backoff h =
    let next = if ltb backoff 10000 then backoff * 2 else backoff in
    let (short, few) = loop-pauses rename left (suc attempt) next (ground arith) in
    elim (Option-cases (rename attempt)) [
      | inl e ↦ ground (arith, e)
      | inr (e, refused) ↦ ground (arith, refused, short, few, h)
    ]

-- renameOver fails exactly if a hundred attempts have failed. It pauses at most a hundred times, each
-- time for less than 20 milliseconds.
pub rename_over-attempts :
    (rename : ℕ → Option Text)
    → (is_some (rename_over rename).1 ≡ not (some_attempt rename 100 0))
      × (all (λ p. ltb p 20000) (rename_over rename).0 ≡ true)
      × (leb (length (rename_over rename).0) 100 ≡ true)
unfolding rename_over
rename_over-attempts rename =
    let (short, few) = loop-pauses rename 100 0 250 refl in
    (loop-some_attempt rename 99 0 250, short, few)
