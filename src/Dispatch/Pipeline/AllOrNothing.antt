-- ===== src/Dispatch/Pipeline/AllOrNothing.antt =====
-- A batch is published whole, or not at all.
use node_cqrs.Common.{
  ◌≡◌, refl, true, Bool-cases, Option, none, some, List, [], ◌∷◌, ◌++◌, ◌⊎◌, inl, inr, codes,
  text_eq, text_eq_sound, arith,
}
use node_cqrs.Messages.{
  Event, Envelope, Batch, Result, ok, err, Error, is_event, is_snapshot_event, defined,
}
use node_cqrs.Dispatch.Pipeline.{
  Processor, BatchEnvelope, run_processors, stage, record_outcome, revert, revert_one, go_on,
  published, publishable, Settled, rejected, settle, run,
}

-- A message of the type of snapshots that has a payload
abbrev pub IsSnapshot : {A : Type 0} → Event A → Type 0
IsSnapshot {A} e = (e.type ≡ codes "snapshot") × (x : A) × (e.payload ≡ some x)

module _ {A : Type 0} where
  has_payload : (o : Option A) → defined o ≡ true → (x : A) × (o ≡ some x)
  has_payload none h = absurd (cc h)
  has_payload (some x) h = (x, refl)

  is_snapshot_event-IsSnapshot : (e : Event A) → is_snapshot_event e ≡ true → IsSnapshot e
  unfolding is_snapshot_event
  is_snapshot_event-IsSnapshot e h =
      let (typed, paid) : (text_eq e.type (codes "snapshot") ≡ true) × (defined e.payload ≡ true) =
        (ground arith, ground arith) in
      let (x, there) = has_payload e.payload paid in
      (text_eq_sound e.type (codes "snapshot") typed, x, there)

  IsSnapshot-is_snapshot_event : (e : Event A) → IsSnapshot e → is_snapshot_event e ≡ true
  unfolding is_snapshot_event is_event text_eq
  IsSnapshot-is_snapshot_event e (typed, x, paid) = rw (typed, paid) refl

  -- The events of a batch that are meant for the bus: the items without an event and the snapshots are passed over.
  pub data Publishes : Batch A → List (Event A) → Type 0 where
    nothing : Publishes [] []
    no_event :
        {item : Envelope A} {items : Batch A} {es : List (Event A)}
        → item.event ≡ none
        → Publishes items es
        → Publishes (item ∷ items) es
    a_snapshot :
        {item : Envelope A} {items : Batch A} {es : List (Event A)} (e : Event A)
        → item.event ≡ some e
        → IsSnapshot e
        → Publishes items es
        → Publishes (item ∷ items) es
    an_event :
        {item : Envelope A} {items : Batch A} {es : List (Event A)} (e : Event A)
        → item.event ≡ some e
        → ¬ IsSnapshot e
        → Publishes items es
        → Publishes (item ∷ items) (e ∷ es)

  published-Publishes :
      (item : Envelope A) (items : Batch A) (o : Option (Event A)) (es : List (Event A))
      → item.event ≡ o
      → Publishes items es
      → Publishes (item ∷ items) (published o ++ es)
  unfolding published
  published-Publishes item items none es h rest = no_event h rest
  published-Publishes item items (some e) es h rest = elim (Bool-cases (is_snapshot_event e)) [
    | inl taken ↦ rw taken (a_snapshot e h (is_snapshot_event-IsSnapshot e taken) rest)
    | inr other ↦
        rw other (an_event e h (λ s. absurd (cc (IsSnapshot-is_snapshot_event e s, other))) rest)
  ]

  publishable-Publishes : (items : Batch A) → Publishes items (publishable items)
  unfolding publishable
  publishable-Publishes [] = nothing
  publishable-Publishes (item ∷ items) =
      published-Publishes item items item.event (publishable items) refl
        (publishable-Publishes items)

module _ {W A : Type 0} where
  -- Each processor took what the one before it returned, and returned in its turn.
  pub data Processed (out : Batch A) (w' : W) : List (Processor W A) → Batch A → W → Type 0 where
    all_done : Processed out w' [] out w'
    one_done :
        {p : Processor W A} {ps : List (Processor W A)} {items : Batch A} {w : W} (mid : Batch A)
        (v : W)
        → p.process items w ≡ (ok mid, v)
        → Processed out w' ps mid v
        → Processed out w' (p ∷ ps) items w

  -- Some processor threw `e` at `mid`, which the ones before it had made.
  pub data Failed (e : Error) (mid : Batch A) (w' : W)
      : List (Processor W A) → Batch A → W → Type 0 where
    throws :
        {p : Processor W A} {ps : List (Processor W A)} {w : W}
        → p.process mid w ≡ (err e, w')
        → Failed e mid w' (p ∷ ps) mid w
    later :
        {p : Processor W A} {ps : List (Processor W A)} {items : Batch A} {w : W} (next : Batch A)
        (v : W)
        → p.process items w ≡ (ok next, v)
        → Failed e mid w' ps next v
        → Failed e mid w' (p ∷ ps) items w

  -- Every processor that has a `revert` reverted the batch, in order, until one threw.
  pub data Reverted (mid : Batch A) (r : Result (Unit {0})) (w' : W)
      : List (Processor W A) → W → Type 0 where
    all_reverted : r ≡ ok tt → Reverted mid r w' [] w'
    without_revert :
        {p : Processor W A} {ps : List (Processor W A)} {w : W}
        → p.revert ≡ none
        → Reverted mid r w' ps w
        → Reverted mid r w' (p ∷ ps) w
    reverts :
        {p : Processor W A} {ps : List (Processor W A)} {w : W}
        (f : Batch A → W → Result (Unit {0}) × W) (v : W)
        → p.revert ≡ some f
        → f mid w ≡ (ok tt, v)
        → Reverted mid r w' ps v
        → Reverted mid r w' (p ∷ ps) w
    revert_throws :
        {p : Processor W A} {ps : List (Processor W A)} {w : W}
        (f : Batch A → W → Result (Unit {0}) × W) (e : Error)
        → p.revert ≡ some f
        → r ≡ err e
        → f mid w ≡ (err e, w')
        → Reverted mid r w' (p ∷ ps) w

  revert_step :
      (p : Processor W A) (ps : List (Processor W A)) (mid : Batch A) (w : W)
      (f : Batch A → W → Result (Unit {0}) × W) (q : Result (Unit {0}) × W)
      → p.revert ≡ some f
      → f mid w ≡ q
      → ((v : W) → Reverted mid (revert ps mid v).0 (revert ps mid v).1 ps v)
      → Reverted mid (go_on (revert ps mid) q).0 (go_on (revert ps mid) q).1 (p ∷ ps) w
  unfolding go_on
  revert_step p ps mid w f (ok u, v) has h rest = reverts f v has h (rest v)
  revert_step p ps mid w f (err e, v) has h rest = revert_throws f e has refl h

  revert_first :
      (p : Processor W A) (ps : List (Processor W A)) (mid : Batch A) (w : W)
      (o : Option (Batch A → W → Result (Unit {0}) × W))
      → p.revert ≡ o
      → ((v : W) → Reverted mid (revert ps mid v).0 (revert ps mid v).1 ps v)
      → let q = go_on (revert ps mid) (revert_one o mid w) in Reverted mid q.0 q.1 (p ∷ ps) w
  unfolding revert_one go_on
  revert_first p ps mid w none has rest = without_revert has (rest w)
  revert_first p ps mid w (some f) has rest = revert_step p ps mid w f (f mid w) has refl rest

  revert-Reverted :
      (ps : List (Processor W A)) (mid : Batch A) (w : W)
      → Reverted mid (revert ps mid w).0 (revert ps mid w).1 ps w
  unfolding revert
  revert-Reverted [] mid w = all_reverted refl
  revert-Reverted (p ∷ ps) mid w = revert_first p ps mid w p.revert refl (revert-Reverted ps mid)

  abbrev RanTo : List (Processor W A) → Batch A → W → Option Error → Batch A → W → Type 0
  RanTo ps items w none mid w' = Processed mid w' ps items w
  RanTo ps items w (some e) mid w' = Failed e mid w' ps items w

  abbrev Ran : List (Processor W A) → Batch A → W → BatchEnvelope A × W → Type 0
  Ran ps items w (envelope, w') = RanTo ps items w envelope.error envelope.items w'

  skips_stages :
      (ps : List (Processor W A)) (items : Batch A) (e : Error) (w : W)
      → run_processors ps (record { items = items; error = some e }) w
        ≡ (record { items = items; error = some e }, w)
  unfolding run_processors stage
  skips_stages [] items e w = refl
  skips_stages (p ∷ ps) items e w = skips_stages ps items e w

  prepend_stage :
      (p : Processor W A) (ps : List (Processor W A)) (items next mid : Batch A) (w v w' : W)
      (o : Option Error)
      → p.process items w ≡ (ok next, v)
      → RanTo ps next v o mid w'
      → RanTo (p ∷ ps) items w o mid w'
  prepend_stage p ps items next mid w v w' none h r = one_done next v h r
  prepend_stage p ps items next mid w v w' (some e) h r = later next v h r

  after_stage :
      (p : Processor W A) (ps : List (Processor W A)) (items : Batch A) (w : W)
      (r : Result (Batch A)) (v : W)
      → p.process items w ≡ (r, v)
      → ((mid : Batch A)
          → Ran ps mid v (run_processors ps (record { items = mid; error = none }) v))
      → let s = record_outcome (record { items = items; error = none }) (r, v) in
        Ran (p ∷ ps) items w (run_processors ps s.0 s.1)
  unfolding record_outcome
  after_stage p ps items w (ok next) v h ih =
      let r = run_processors ps (record { items = next; error = none }) v in
      prepend_stage p ps items next r.0.items w v r.1 r.0.error h (ih next)
  after_stage p ps items w (err e) v h ih = rw (skips_stages ps items e v) (throws h)

  run_processors-Ran :
      (ps : List (Processor W A)) (items : Batch A) (w : W)
      → Ran ps items w (run_processors ps (record { items = items; error = none }) w)
  unfolding run_processors stage
  run_processors-Ran [] items w = all_done
  run_processors-Ran (p ∷ ps) items w =
      let (r, v) = p.process items w in
      after_stage p ps items w r v refl (λ mid. run_processors-Ran ps mid v)

  -- What became of a batch.
  abbrev pub Outcome : List (Processor W A) → Batch A → W → Settled W A → Type 0
  Outcome ps items w r =
      ((out : Batch A) × Processed out r.world ps items w
        × Publishes out r.log
        × (r.result ≡ ok r.log))
      ⊎ ((e : Error) × (mid : Batch A) × (v : W) × (done : Result (Unit {0})) × Failed e mid v ps
            items w
          × Reverted mid done r.world ps v
          × (r.log ≡ [])
          × (((done ≡ ok tt) × (r.result ≡ err e))
              ⊎ ((e' : Error) × (done ≡ err e') × (r.result ≡ err e'))))

  rejected-Outcome :
      (ps : List (Processor W A)) (items mid : Batch A) (w v : W) (e : Error)
      (q : Result (Unit {0}) × W)
      → Failed e mid v ps items w
      → Reverted mid q.0 q.1 ps v
      → Outcome ps items w (rejected e q)
  unfolding rejected
  rejected-Outcome ps items mid w v e (ok u, w') f h =
      inr (e, mid, v, ok tt, f, h, refl, inl (refl, refl))
  rejected-Outcome ps items mid w v e (err e', w') f h =
      inr (e, mid, v, err e', f, h, refl, inr (e', refl, refl))

  settle-Outcome :
      (ps : List (Processor W A)) (items mid : Batch A) (w v : W) (o : Option Error)
      → RanTo ps items w o mid v
      → Outcome ps items w (settle ps o mid v)
  unfolding settle
  settle-Outcome ps items mid w v none r = inl (mid, r, publishable-Publishes mid, refl)
  settle-Outcome ps items mid w v (some e) r =
      rejected-Outcome ps items mid w v e (revert ps mid v) r (revert-Reverted ps mid v)

  -- A pushed batch either goes through every processor, and then exactly the events of the items left in it that are no
  -- snapshots are published and returned, in their order; or some processor throws, nothing is
  -- published, and of all processors those that have a `revert` revert the batch as the failing one was
  -- given it, in order, until one throws. The promise is then rejected with the failing processor's error, or with that of the
  -- revert that threw.
  pub run-Outcome :
      (ps : List (Processor W A)) (items : Batch A) (w : W) → Outcome ps items w (run ps items w)
  unfolding run
  run-Outcome ps items w =
      let r = run_processors ps (record { items = items; error = none }) w in
      settle-Outcome ps items r.0.items w r.1 r.0.error (run_processors-Ran ps items w)
