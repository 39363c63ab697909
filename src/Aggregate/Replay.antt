-- ===== src/Aggregate/Replay.antt =====
-- Replaying events, one at a time.
use node_cqrs.Common.{ℕ, suc, ◌≡◌, refl, ap, some, List, [], ◌∷◌, arith}
use node_cqrs.Common.Lists.{last?}
use node_cqrs.Messages.{Event, Result, ok, err}
use node_cqrs.Aggregate.{StateType, Core, mutate, replay, replay_rest}
use node_cqrs.Aggregate.Behaviour.Versions.{mutate_version}

module _ {S A : Type 0} (t : StateType S A) where
  replay_rest-inverts :
      (rest : Core S → Result (Unit {0}) × Core S) (r : Result (Unit {0}) × Core S) (d : Core S)
      → replay_rest t rest r ≡ (ok tt, d)
      → (r.0 ≡ ok tt) × (rest r.1 ≡ (ok tt, d))
  unfolding replay_rest
  replay_rest-inverts rest (ok u, c) d h = (refl, h)
  replay_rest-inverts rest (err x, c) d h = absurd (cc (ap (λ r. r.0) h))

  -- A replay that ends has gone through its first event.
  pub replay-cons :
      (e : Event A) (es : List (Event A)) (c d : Core S)
      → replay t (e ∷ es) c ≡ (ok tt, d)
      → ((mutate t e c).0 ≡ ok tt) × (replay t es (mutate t e c).1 ≡ (ok tt, d))
  unfolding replay
  replay-cons e es c d h = replay_rest-inverts (replay t es) (mutate t e c) d h

  -- Where events are replayed to the end, the last one determines the version.
  pub replay_version :
      (es : List (Event A)) (e : Event A) (n : ℕ) (c d : Core S)
      → replay t es c ≡ (ok tt, d)
      → last? es ≡ some e
      → e.aggregate_version ≡ some n
      → d.version ≡ suc n
  unfolding last?
  replay_version [] e n c d h p q = absurd (cc p)
  replay_version (x ∷ []) e n c d h p q =
      let step = replay-cons x [] c d h in
      let at_end : (mutate t x c).1 ≡ d = unfold replay in ap (λ r. r.1) step.1 in
      ground (arith, ap (λ (k : Core S). k.version) at_end, mutate_version t x c step.0, p, q)
  replay_version (x ∷ y ∷ es) e n c d h p q =
      replay_version (y ∷ es) e n (mutate t x c).1 d (replay-cons x (y ∷ es) c d h).1 p q

  pub replay-nil : (c d : Core S) → replay t [] c ≡ (ok tt, d) → c ≡ d
  unfolding replay
  replay-nil c d h = ap (λ r. r.1) h
