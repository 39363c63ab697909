-- ===== src/Redis/ViewLocker/Exclusion.antt =====
-- Lockers on one view of src/redis/RedisViewLocker.ts, each with a token of its own: who holds the lock.
use node_cqrs.Common.{
  ◌≡◌, refl, sym, ap, ◌∙◌, subst, ℕ, ◌+◌, ◌-◌, ◌<◌, true, false, Option, none, some, Bool, arith,
  Option-cases, inl, inr, Text, text_eq, text_eq_refl, List, [], ◌∷◌,
}
use node_cqrs.Common.Lists.{All}
use node_cqrs.Redis.{Server, IsRedis, aged, set_px_nx, unless_there}
use node_cqrs.Redis.ViewLocker.{
  Settings, try_lock, script_prolong_lock, script_release_lock, prolong_if, release_if,
}

-- What the lockers of one view do to the server, each call with the token of its locker, and the time that passes.
pub data Step : Type 0 where
  attempt prolong release : Text → Step
  pause : ℕ → Step

-- The step is not one of the locker with this token.
abbrev pub IsForeign : Text → Step → Type 0
IsForeign token (attempt other) = text_eq token other ≡ false
IsForeign token (prolong other) = text_eq token other ≡ false
IsForeign token (release other) = text_eq token other ≡ false
IsForeign token (pause d) = Unit

abbrev pub elapsed : List Step → ℕ
elapsed [] = 0
elapsed (pause d ∷ steps) = d + elapsed steps
elapsed (attempt t ∷ steps) = elapsed steps
elapsed (prolong t ∷ steps) = elapsed steps
elapsed (release t ∷ steps) = elapsed steps

elapsed-cons :
    (s : Step) (steps : List Step) → elapsed (s ∷ steps) ≡ elapsed (s ∷ []) + elapsed steps
elapsed-cons (attempt t) steps = omega arith
elapsed-cons (prolong t) steps = omega arith
elapsed-cons (release t) steps = omega arith
elapsed-cons (pause d) steps = omega arith

aged-soon :
    (token : Text) (n d : ℕ)
    → d < n
    → aged d (some (token, some n)) ≡ some (token, some (n - (d + 0)))
unfolding aged
aged-soon token n d soon = ground arith

module _ {W : Type 0} (server : Server W) (o : Settings) where
  -- Whether the step obtained the lock, and the server after it.
  unfoldable pub step : Step → W → Bool × W
  step (attempt token) w = try_lock server o token w
  step (prolong token) w = (false, (script_prolong_lock server o token w).1)
  step (release token) w = (false, (script_release_lock server o token w).1)
  step (pause d) w = (false, server.wait d w)

  unfoldable pub run : List Step → W → List Bool × W
  run [] w = ([], w)
  run (s ∷ steps) w =
      let (obtained, after) = step s w in
      let (answers, last) = run steps after in (obtained ∷ answers, last)

  unfoldable pub refusals : List Step → List Bool
  refusals [] = []
  refusals (s ∷ steps) = false ∷ refusals steps

  abbrev pub IsHeld : Text → ℕ → W → Type 0
  IsHeld token left w = server.cell o.lock_key w ≡ some (token, some left)

  try_lock-held :
      (token other : Text) (n : ℕ) (w : W)
      → IsHeld token n w
      → try_lock server o other w ≡ (false, w)
  unfolding try_lock set_px_nx unless_there
  try_lock-held token other n w held = rw held refl

  prolong-foreign :
      (token other : Text) (n : ℕ) (w : W)
      → IsHeld token n w
      → text_eq token other ≡ false
      → script_prolong_lock server o other w ≡ (0, w)
  unfolding script_prolong_lock prolong_if
  prolong-foreign token other n w held foreign = rw (held, foreign) refl

  release-foreign :
      (token other : Text) (n : ℕ) (w : W)
      → IsHeld token n w
      → text_eq token other ≡ false
      → script_release_lock server o other w ≡ (0, w)
  unfolding script_release_lock release_if
  release-foreign token other n w held foreign = rw (held, foreign) refl

  still : (token : Text) (n : ℕ) (w : W) → IsHeld token n w → IsHeld token (n - 0) w
  still token n w held = held ∙ ap (λ (left : ℕ). some (token, some left)) (omega arith)

  step-foreign :
      (laws : IsRedis server) (token : Text) (n : ℕ) (s : Step) (w : W)
      → IsHeld token n w
      → IsForeign token s
      → elapsed (s ∷ []) < n
      → ((step s w).0 ≡ false) × IsHeld token (n - elapsed (s ∷ [])) (step s w).1
  unfolding step
  step-foreign laws token n (attempt other) w held foreign soon =
      let same = try_lock-held token other n w held in
      (
        ap (λ (p : Bool × W). p.0) same,
        ap (λ (p : Bool × W). server.cell o.lock_key p.1) same ∙ still token n w held,
      )
  step-foreign laws token n (prolong other) w held foreign soon = (
    refl,
    ap (λ (p : ℕ × W). server.cell o.lock_key p.1) (prolong-foreign token other n w held foreign)
        ∙ still token n w held,
  )
  step-foreign laws token n (release other) w held foreign soon = (
    refl,
    ap (λ (p : ℕ × W). server.cell o.lock_key p.1) (release-foreign token other n w held foreign)
        ∙ still token n w held,
  )
  step-foreign laws token n (pause d) w held foreign soon =
      (refl, laws.cell-wait o.lock_key d w ∙ (ap (aged d) held ∙ aged-soon token n d (omega arith)))

  run-held :
      (laws : IsRedis server) (token : Text) (n : ℕ) (steps : List Step) (w : W)
      → IsHeld token n w
      → All (IsForeign token) steps
      → elapsed steps < n
      → ((run steps w).0 ≡ refusals steps) × IsHeld token (n - elapsed steps) (run steps w).1
  unfolding run refusals
  run-held laws token n [] w held foreign soon = (refl, still token n w held)
  run-held laws token n (s ∷ steps) w held foreign soon =
      let split = elapsed-cons s steps in
      let (refused, kept) = step-foreign laws token n s w held foreign.0 (omega arith) in
      let (all, last) =
        run-held laws token (n - elapsed (s ∷ [])) steps (step s w).1 kept foreign.1
          (omega arith) in
      (
        (λ i. refused i ∷ all i),
        last ∙ ap (λ (left : ℕ). some (token, some left)) (omega (arith, split)),
      )

  try_lock-obtained :
      (laws : IsRedis server) (token : Text) (w after : W)
      → try_lock server o token w ≡ (true, after)
      → IsHeld token o.view_lock_ttl after
  unfolding try_lock set_px_nx unless_there
  try_lock-obtained laws token w after h = elim (Option-cases (server.cell o.lock_key w)) [
    | inl free ↦ subst (IsHeld token o.view_lock_ttl) (written free) (
        laws.cell-set_px o.lock_key o.lock_key token o.view_lock_ttl w
        ∙ rw (text_eq_refl o.lock_key) refl)
    | inr (entry, there) ↦ absurd (cc (kept entry there, h))
  ]
    where
      written :
          server.cell o.lock_key w ≡ none → server.set_px o.lock_key token o.view_lock_ttl w ≡ after
      written free =
          ap (λ (p : Bool × W). p.1)
            (sym
                (ap (λ c. unless_there c (server.set_px o.lock_key token o.view_lock_ttl w) w) free)
              ∙ h)

      kept :
          (entry : Text × Option ℕ)
          → server.cell o.lock_key w ≡ some entry
          → try_lock server o token w ≡ (false, w)
      kept entry there =
          ap (λ c. unless_there c (server.set_px o.lock_key token o.view_lock_ttl w) w) there

  -- One locker holds the view at a time: if a locker obtained the lock, then whatever other lockers do within less than `viewLockTtl`
  -- milliseconds, be it to try to lock the view, to prolong a lock or to unlock the view, none of them obtains it, and the first one
  -- still holds it for the rest of that time. The others have other tokens.
  pub run-obtained :
      (laws : IsRedis server) (token : Text) (w after : W) (steps : List Step)
      → try_lock server o token w ≡ (true, after)
      → All (IsForeign token) steps
      → elapsed steps < o.view_lock_ttl
      → ((run steps after).0 ≡ refusals steps)
        × IsHeld token (o.view_lock_ttl - elapsed steps) (run steps after).1
  run-obtained laws token w after steps h foreign soon =
      run-held laws token o.view_lock_ttl steps after (try_lock-obtained laws token w after h)
        foreign soon
