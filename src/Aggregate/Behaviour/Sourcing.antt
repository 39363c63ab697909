-- ===== src/Aggregate/Behaviour/Sourcing.antt =====
-- Event sourcing: the events of a command carry everything that the command did to the aggregate.
use node_cqrs.Common.{
  ℕ, ◌≡◌, refl, sym, ap, subst, ◌∙◌, Option, none, some, List, [], ◌∷◌, ◌++◌, Text, truthy,
  text_eq_refl, or_else, arith, Bool-cases, Option-cases, inl, inr, append-nil, append_assoc,
}
use node_cqrs.Common.Lists.{length, drop, drop-append}
use node_cqrs.Messages.{Event, Command, Result, ok, err, Error, is_message, snapshot_event_type}
use node_cqrs.Aggregate.{
  StateType, Core, Aggregate, emit, emit_raw, mutate, make_event, register, finish_mutation,
  get_optional_handler, replay, replay_rest,
}
use node_cqrs.Aggregate.Behaviour.{
  Behaviour, done, fail, emits, AggregateType, run, take_snapshot, snapshot_of, note_snapshot,
  get_uncommitted_events, changes_from, collect, start, with_handler, handle, release_command,
}

-- The handler lets an error that `emit` throws pass.
abbrev pub Propagates : {S A : Type 0} → Behaviour S A → Type 0
Propagates done = Unit
Propagates (fail e) = Unit
Propagates {S} {A} (emits type payload rest) =
    ((x : Error) (a : Aggregate S A) → rest (err x) a ≡ fail x)
    × ((a : Aggregate S A) → Propagates (rest (ok tt) a))

module _ {S A : Type 0} (t : StateType S A) where
  replay_rest-nil : (r : Result (Unit {0}) × Core S) → replay_rest t (λ c. (ok tt, c)) r ≡ r
  unfolding replay_rest
  replay_rest-nil (ok u, c) = refl
  replay_rest-nil (err x, c) = refl

  replay_rest-snoc :
      (es : List (Event A)) (e : Event A) (d : Core S) (r : Result (Unit {0}) × Core S)
      → ((c : Core S) → replay t es c ≡ (ok tt, d) → replay t (es ++ e ∷ []) c ≡ mutate t e d)
      → replay_rest t (replay t es) r ≡ (ok tt, d)
      → replay_rest t (replay t (es ++ e ∷ [])) r ≡ mutate t e d
  unfolding replay_rest
  replay_rest-snoc es e d (ok u, c) ih h = ih c h
  replay_rest-snoc es e d (err x, c) ih h = absurd (cc (ap (λ r. r.0) h))

  replay-snoc :
      (es : List (Event A)) (e : Event A) (c : Core S) (d : Core S)
      → replay t es c ≡ (ok tt, d)
      → replay t (es ++ e ∷ []) c ≡ mutate t e d
  unfolding replay replay_rest
  replay-snoc [] e c d h = replay_rest-nil (mutate t e c) ∙ ap (mutate t e) (ap (λ r. r.1) h)
  replay-snoc (x ∷ es) e c d h =
      replay_rest-snoc es e d (mutate t x c) (λ c'. replay-snoc es e c' d) h

module _ {S A : Type 0} (t : AggregateType S A) (old : List (Event A)) (k : Core S) where
  -- The changes since the start bring the core from `k` to what it is.
  pub record IsSourced (a : Aggregate S A) : Type 0 where
    pub emitted : List (Event A)
    pub appended : a.changes ≡ old ++ emitted
    pub replayed : replay t.state_type emitted k ≡ (ok tt, a.core)

  abbrev SourcedIf : Result (Unit {0}) × Aggregate S A → Type 0
  SourcedIf (ok u, a) = IsSourced a
  SourcedIf (err x, a) = Unit

  register-SourcedIf :
      (event : Event A) (r : Result (Unit {0}) × Core S) (a : Aggregate S A)
      → mutate t.state_type event a.core ≡ r
      → IsSourced a
      → SourcedIf (register t.state_type event r a)
  unfolding register
  register-SourcedIf event (err x, c) a m s = tt
  register-SourcedIf event (ok u, c) a m s = record {
    emitted = s.emitted ++ event ∷ [];
    appended = ap (λ l. l ++ event ∷ []) s.appended ∙ append_assoc old s.emitted (event ∷ []);
    replayed = replay-snoc t.state_type s.emitted event k a.core s.replayed ∙ m;
  }

  emit_raw-SourcedIf :
      (event : Event A) (a : Aggregate S A)
      → IsSourced a
      → SourcedIf (emit_raw t.state_type event a)
  unfolding emit_raw
  emit_raw-SourcedIf event a s = elim (Bool-cases (truthy (or_else event.aggregate_id []))) [
    | inr bad ↦ rw bad tt
    | inl good ↦ rw good (register-SourcedIf event _ a refl s)
  ]

  emit-SourcedIf :
      (type : Text) (payload : Option A) (a : Aggregate S A)
      → IsSourced a
      → SourcedIf (emit t.state_type type payload a)
  unfolding emit
  emit-SourcedIf type payload a s = elim (Bool-cases (truthy type)) [
    | inr bad ↦ rw bad tt
    | inl good ↦ rw good (emit_raw-SourcedIf (make_event t.state_type type payload a) a s)
  ]

  -- After an `emit`: a handler that lets errors pass goes on only where it returned.
  next-SourcedIf :
      (rest : Result (Unit {0}) → Aggregate S A → Behaviour S A) (r : Result (Unit {0}))
      (a : Aggregate S A)
      → ((x : Error) → rest (err x) a ≡ fail x)
      → (IsSourced a → SourcedIf (run t (rest (ok tt) a) a))
      → SourcedIf (r, a)
      → SourcedIf (run t (rest r a) a)
  unfolding run
  next-SourcedIf rest (ok u) a stop go s = go s
  next-SourcedIf rest (err x) a stop go s = rw (stop x, run) tt

  run-SourcedIf :
      (b : Behaviour S A) (a : Aggregate S A) → Propagates b → IsSourced a → SourcedIf (run t b a)
  unfolding run
  run-SourcedIf done a p s = s
  run-SourcedIf (fail x) a p s = tt
  run-SourcedIf (emits type payload rest) a p s =
      let (r, a') = emit t.state_type type payload a in
      next-SourcedIf rest r a' (λ x. p.0 x a') (run-SourcedIf (rest (ok tt) a') a' (p.1 a'))
        (emit-SourcedIf type payload a s)

  -- A snapshot that was taken is noted at the version that its event has set already.
  abbrev NotedAt : Option ℕ → Result (Unit {0}) × Aggregate S A → Type 0
  NotedAt n (ok u, a) = a.snapshot_version ≡ n
  NotedAt n (err x, a) = Unit

  register-NotedAt :
      (event : Event A) (r : Result (Unit {0}) × Core S) (a : Aggregate S A) (n : Option ℕ)
      → r.1.snapshot_version ≡ n
      → NotedAt n (register t.state_type event r a)
  unfolding register
  register-NotedAt event (ok u, c) a n h = h
  register-NotedAt event (err x, c) a n h = tt

  mutate_snapshot_version :
      (event : Event A) (c : Core S)
      → event.type ≡ snapshot_event_type
      → (mutate t.state_type event c).1.snapshot_version ≡ event.aggregate_version
  unfolding mutate finish_mutation
  mutate_snapshot_version event c h = ground (arith, h, text_eq_refl snapshot_event_type)

  emit-NotedAt :
      (v : Option A) (a : Aggregate S A)
      → NotedAt (some a.version) (emit t.state_type snapshot_event_type v a)
  unfolding emit emit_raw make_event
  emit-NotedAt v a = elim (Bool-cases (truthy a.id)) [
    | inr bad ↦ rw bad tt
    | inl good ↦ rw good (
        register-NotedAt _ _ a (some a.version)
          (mutate_snapshot_version (make_event t.state_type snapshot_event_type v a) a.core refl))
  ]

  note_snapshot-SourcedIf :
      (n : Option ℕ) (r : Result (Unit {0})) (a : Aggregate S A)
      → NotedAt n (r, a)
      → SourcedIf (r, a)
      → SourcedIf (note_snapshot t n (r, a))
  unfolding note_snapshot
  note_snapshot-SourcedIf n (ok u) a h s = record {
    emitted = s.emitted;
    appended = s.appended;
    replayed =
        s.replayed ∙ ap (λ (v : Option ℕ). (ok tt, record a.core { snapshot_version = v })) h;
  }
  note_snapshot-SourcedIf n (err x) a h s = tt

  snapshot_of-SourcedIf :
      (o : Option S) (a : Aggregate S A) → IsSourced a → SourcedIf (snapshot_of t o a)
  unfolding snapshot_of
  snapshot_of-SourcedIf none a s = tt
  snapshot_of-SourcedIf (some st) a s =
      let v = some (t.state_type.clone_state st) in
      let r = emit t.state_type snapshot_event_type v a in
      note_snapshot-SourcedIf (some a.version) r.0 r.1 (emit-NotedAt v a)
        (emit-SourcedIf snapshot_event_type v a s)

  -- The events collected from the old offset on bring `k` to the core.
  abbrev pub Replays : Result (List (Event A)) × Aggregate S A → Type 0
  Replays (err x, a) = Unit
  Replays (ok events, a) = replay t.state_type events k ≡ (ok tt, a.core)

  changes_from-Replays :
      (r : Result (Unit {0})) (a : Aggregate S A)
      → SourcedIf (r, a)
      → Replays (changes_from t (length old) (r, a))
  unfolding changes_from
  changes_from-Replays (err x) a s = tt
  changes_from-Replays (ok u) a s =
      let exact : drop (length old) a.changes ≡ s.emitted =
        ap (drop (length old)) s.appended ∙ drop-append old s.emitted in
      rw exact s.replayed

  get_uncommitted_events-Replays :
      (a : Aggregate S A) → IsSourced a → Replays (get_uncommitted_events t (length old) a)
  unfolding get_uncommitted_events take_snapshot
  get_uncommitted_events-Replays a s = elim (Bool-cases (t.should_take_snapshot a)) [
    | inl due ↦ rw due (
        changes_from-Replays (snapshot_of t a.state a).0 (snapshot_of t a.state a).1
          (snapshot_of-SourcedIf a.state a s))
    | inr not_due ↦ rw not_due (changes_from-Replays (ok tt) a s)
  ]

  collect-Replays :
      (r : Result (Unit {0})) (a : Aggregate S A)
      → SourcedIf (r, a)
      → Replays (collect t (length old) (r, a))
  unfolding collect
  collect-Replays (err x) a s = tt
  collect-Replays (ok u) a s = get_uncommitted_events-Replays a s

  release-Replays :
      (r : Result (List (Event A)) × Aggregate S A) → Replays r → Replays (release_command t r)
  release-Replays (err x, a) h = tt
  release-Replays (ok events, a) h = h

  Replays-at :
      (r : Result (List (Event A))) (events : List (Event A)) (a : Aggregate S A)
      → r ≡ ok events
      → Replays (r, a)
      → replay t.state_type events k ≡ (ok tt, a.core)
  Replays-at r events a h s = subst (λ r. Replays (r, a)) h s

module _ {S A : Type 0} (t : AggregateType S A) (c : Command A) (a : Aggregate S A) where
  -- Every handler of the type lets the errors of `emit` pass.
  abbrev pub AllPropagate : Type 0
  AllPropagate =
      (type : Text) (h : Command A → Aggregate S A → Behaviour S A) (b : Aggregate S A)
      → t.commands type ≡ some h
      → Propagates (h c b)

  abbrev Outcome : Result (List (Event A)) × Aggregate S A → Type 0
  Outcome = Replays t a.changes a.core

  start-Outcome :
      (busy : Option (Command A)) (handler : Command A → Aggregate S A → Behaviour S A)
      → ((b : Aggregate S A) → Propagates (handler c b))
      → Outcome (start t busy handler c a)
  unfolding start
  start-Outcome (some b) handler p = tt
  start-Outcome none handler p =
      let a' : Aggregate S A = record a { command = some c } in
      let r = run t (handler c a') a' in
      release-Replays t a.changes a.core (collect t (length a.changes) r) (
        collect-Replays t a.changes a.core r.0 r.1 (
          run-SourcedIf t a.changes a.core (handler c a') a' (p a') (record {
            emitted = [];
            appended = sym (append-nil a.changes);
            replayed = unfold replay in refl;
          })))

  with_handler-Outcome :
      (h : Result (Option (Command A → Aggregate S A → Behaviour S A)))
      → ((g : Command A → Aggregate S A → Behaviour S A) (b : Aggregate S A)
          → h ≡ ok (some g)
          → Propagates (g c b))
      → Outcome (with_handler t h c a)
  unfolding with_handler
  with_handler-Outcome (err x) p = tt
  with_handler-Outcome (ok none) p = tt
  with_handler-Outcome (ok (some h)) p = start-Outcome a.command h (λ b. p h b refl)

  found-Propagates :
      AllPropagate
      → (g : Command A → Aggregate S A → Behaviour S A) (b : Aggregate S A)
      → get_optional_handler t.commands c.type ≡ ok (some g)
      → Propagates (g c b)
  unfolding get_optional_handler
  found-Propagates p g b h = elim (Option-cases (t.commands c.type)) [
    | inl e ↦ p (b'_' ∷ c.type) g b (ground (arith, e))
    | inr (m, e) ↦ p c.type g b (ground (arith, e))
  ]

  handle-Outcome : AllPropagate → Outcome (handle t c a)
  unfolding handle
  handle-Outcome p = elim (Bool-cases (is_message c)) [
    | inl good ↦
        rw good (with_handler-Outcome (get_optional_handler t.commands c.type) (found-Propagates p))
    | inr bad ↦ rw bad tt
  ]

  -- Where the handlers let the errors of `emit` pass, the events that a command returns, a
  -- snapshot included, bring an aggregate as it was before the command to the version, the
  -- snapshot version and the state after it.
  pub handle_sourced :
      (events : List (Event A))
      → AllPropagate
      → (handle t c a).0 ≡ ok events
      → replay t.state_type events a.core ≡ (ok tt, (handle t c a).1.core)
  handle_sourced events p h =
      Replays-at t a.changes a.core (handle t c a).0 events (handle t c a).1 h (handle-Outcome p)
