-- ===== src/Aggregate/Behaviour/Versions.antt =====
-- The versions of the events that a command emits.
use node_cqrs.Common.{
  ℕ, suc, ◌+◌, ◌≡◌, refl, sym, ap, subst, ◌∙◌, Option, none, some, List, [], ◌∷◌, ◌++◌, Text,
  truthy, or_else, arith, Bool-cases, inl, inr, append-nil, append_assoc,
}
use node_cqrs.Common.Lists.{length, drop, length-append, drop-append}
use node_cqrs.Messages.{Event, Command, Result, ok, err, Error, is_message, snapshot_event_type}
use node_cqrs.Aggregate.{
  StateType, Core, Aggregate, emit, emit_raw, mutate, make_event, register, finish_mutation,
  get_optional_handler,
}
use node_cqrs.Aggregate.Behaviour.{
  Behaviour, done, fail, emits, AggregateType, run, take_snapshot, snapshot_of, note_snapshot,
  get_uncommitted_events, changes_from, collect, start, with_handler, handle, release_command,
}

module _ {A : Type 0} where
  -- The events are those of the aggregate, one version after the other from the given one, and
  -- carry the context and the saga origins of the command.
  abbrev pub AreSequential : Text → Command A → ℕ → List (Event A) → Type 0
  AreSequential id c version [] = Unit
  AreSequential id c version (e ∷ es) =
      (e.aggregate_id ≡ some id)
      × (e.aggregate_version ≡ some version)
      × (e.context ≡ c.context)
      × (e.saga_origins ≡ c.saga_origins)
      × AreSequential id c (suc version) es

  AreSequential-snoc :
      (id : Text) (c : Command A) (version n : ℕ) (es : List (Event A)) (e : Event A)
      → AreSequential id c version es
      → n ≡ version + length es
      → e.aggregate_id ≡ some id
      → e.aggregate_version ≡ some n
      → e.context ≡ c.context
      → e.saga_origins ≡ c.saga_origins
      → AreSequential id c version (es ++ e ∷ [])
  AreSequential-snoc id c version n [] e h hn hi hv hc ho =
      (hi, hv ∙ ap some (omega arith), hc, ho, tt)
  AreSequential-snoc id c version n (x ∷ es) e h hn hi hv hc ho = (
    h.0,
    h.1,
    h.2,
    h.3,
    AreSequential-snoc id c (suc version) n es e h.4 (omega arith) hi hv hc ho,
  )

module _ {S A : Type 0} (t : StateType S A) where
  -- A mutation that succeeds takes the event's version and adds one.
  pub mutate_version :
      (e : Event A) (c : Core S)
      → (mutate t e c).0 ≡ ok tt
      → (mutate t e c).1.version ≡ or_else e.aggregate_version c.version + 1
  unfolding mutate finish_mutation
  mutate_version e c h = ground arith

  mutate_version_failed :
      (e : Event A) (c : Core S) (x : Error)
      → (mutate t e c).0 ≡ err x
      → (mutate t e c).1.version ≡ or_else e.aggregate_version c.version
  unfolding mutate finish_mutation
  mutate_version_failed e c x h = ground arith

module _ {S A : Type 0} (t : AggregateType S A) (id : Text) (old : List (Event A)) (v : ℕ)
    (c : Command A) where
  -- The aggregate while it handles `c`: what it has emitted since the start.
  pub record IsEmitting (a : Aggregate S A) : Type 0 where
    pub same_id : a.id ≡ id
    pub same_command : a.command ≡ some c
    pub emitted : List (Event A)
    pub appended : a.changes ≡ old ++ emitted
    pub counted : a.version ≡ v + length emitted
    pub sequential : AreSequential id c v emitted

  emitted_version :
      (event : Event A) (r : Result (Unit {0}) × Core S) (a : Aggregate S A)
      → mutate t.state_type event a.core ≡ r
      → event.aggregate_version ≡ some a.version
      → r.1.version ≡ (a.version + elim r.0 [ ok u ↦ 1 | err x ↦ 0 ])
  emitted_version event (ok u, k) a m hv =
      sym (ap (λ r. r.1.version) m)
      ∙ mutate_version t.state_type event a.core (ap (λ r. r.0) m)
      ∙ ap (λ (o : Option ℕ). or_else o a.version + 1) hv
  emitted_version event (err x, k) a m hv =
      sym (ap (λ r. r.1.version) m)
      ∙ mutate_version_failed t.state_type event a.core x (ap (λ r. r.0) m)
      ∙ ap (λ (o : Option ℕ). or_else o a.version) hv
      ∙ omega arith

  emit_event-IsEmitting :
      (event : Event A) (r : Result (Unit {0}) × Core S) (a : Aggregate S A)
      → mutate t.state_type event a.core ≡ r
      → event.aggregate_id ≡ some a.id
      → event.aggregate_version ≡ some a.version
      → event.context ≡ c.context
      → event.saga_origins ≡ c.saga_origins
      → IsEmitting a
      → IsEmitting (register t.state_type event r a).1
  unfolding register
  emit_event-IsEmitting event (ok u, k) a m hi hv hc ho e = record {
    same_id = e.same_id;
    same_command = e.same_command;
    emitted = e.emitted ++ event ∷ [];
    appended = ap (λ l. l ++ event ∷ []) e.appended ∙ append_assoc old e.emitted (event ∷ []);
    counted =
        let next : k.version ≡ a.version + 1 = emitted_version event (ok u, k) a m hv in
        omega (arith, next, e.counted, length-append e.emitted (event ∷ []));
    sequential =
        AreSequential-snoc id c v a.version e.emitted event e.sequential e.counted
          (hi ∙ ap some e.same_id) hv hc ho;
  }
  emit_event-IsEmitting event (err x, k) a m hi hv hc ho e = record {
    same_id = e.same_id;
    same_command = e.same_command;
    emitted = e.emitted;
    appended = e.appended;
    counted =
        let same : k.version ≡ a.version + 0 = emitted_version event (err x, k) a m hv in
        omega (arith, same, e.counted);
    sequential = e.sequential;
  }

  emit_raw-IsEmitting :
      (event : Event A) (a : Aggregate S A)
      → event.aggregate_id ≡ some a.id
      → event.aggregate_version ≡ some a.version
      → event.context ≡ c.context
      → event.saga_origins ≡ c.saga_origins
      → IsEmitting a
      → IsEmitting (emit_raw t.state_type event a).1
  unfolding emit_raw
  emit_raw-IsEmitting event a hi hv hc ho e =
      elim (Bool-cases (truthy (or_else event.aggregate_id []))) [
        | inr bad ↦ rw bad e
        | inl good ↦ rw good (emit_event-IsEmitting event _ a refl hi hv hc ho e)
      ]

  emit-IsEmitting :
      (type : Text) (payload : Option A) (a : Aggregate S A)
      → IsEmitting a
      → IsEmitting (emit t.state_type type payload a).1
  unfolding emit make_event
  emit-IsEmitting type payload a e = elim (Bool-cases (truthy type)) [
    | inr bad ↦ rw bad e
    | inl good ↦
        rw good (emit_raw-IsEmitting _ a refl refl (rw e.same_command) (rw e.same_command) e)
  ]

  run-IsEmitting : (b : Behaviour S A) (a : Aggregate S A) → IsEmitting a → IsEmitting (run t b a).1
  unfolding run
  run-IsEmitting done a e = e
  run-IsEmitting (fail x) a e = e
  run-IsEmitting (emits type payload rest) a e =
      let (r, a') = emit t.state_type type payload a in
      run-IsEmitting (rest r a') a' (emit-IsEmitting type payload a e)

  note_snapshot-IsEmitting :
      (n : Option ℕ) (r : Result (Unit {0})) (a : Aggregate S A)
      → IsEmitting a
      → IsEmitting (note_snapshot t n (r, a)).1
  unfolding note_snapshot
  note_snapshot-IsEmitting n (ok u) a e = record {
    same_id = e.same_id;
    same_command = e.same_command;
    emitted = e.emitted;
    appended = e.appended;
    counted = e.counted;
    sequential = e.sequential;
  }
  note_snapshot-IsEmitting n (err x) a e = e

  snapshot_of-IsEmitting :
      (s : Option S) (a : Aggregate S A) → IsEmitting a → IsEmitting (snapshot_of t s a).1
  unfolding snapshot_of
  snapshot_of-IsEmitting none a e = e
  snapshot_of-IsEmitting (some s) a e =
      let v = some (t.state_type.clone_state s) in
      note_snapshot-IsEmitting (some a.version) (emit t.state_type snapshot_event_type v a).0
        (emit t.state_type snapshot_event_type v a).1 (emit-IsEmitting snapshot_event_type v a e)

  -- What the events collected from the old offset on say of the aggregate.
  abbrev pub Collected : Result (List (Event A)) × Aggregate S A → Type 0
  Collected (err x, a) = Unit
  Collected (ok events, a) =
      AreSequential id c v events
      × (a.version ≡ v + length events)
      × (a.changes ≡ old ++ events)
      × (a.id ≡ id)

  pub Collected-at :
      (r : Result (List (Event A))) (events : List (Event A)) (a : Aggregate S A)
      → r ≡ ok events
      → Collected (r, a)
      → AreSequential id c v events
        × (a.version ≡ v + length events)
        × (a.changes ≡ old ++ events)
        × (a.id ≡ id)
  Collected-at r events a h k = subst (λ r. Collected (r, a)) h k

  changes_from-Collected :
      (r : Result (Unit {0})) (a : Aggregate S A)
      → IsEmitting a
      → Collected (changes_from t (length old) (r, a))
  unfolding changes_from
  changes_from-Collected (err x) a e = tt
  changes_from-Collected (ok u) a e =
      let exact : drop (length old) a.changes ≡ e.emitted =
        ap (drop (length old)) e.appended ∙ drop-append old e.emitted in
      rw exact (e.sequential, e.counted, e.appended, e.same_id)

  get_uncommitted_events-Collected :
      (a : Aggregate S A) → IsEmitting a → Collected (get_uncommitted_events t (length old) a)
  unfolding get_uncommitted_events take_snapshot
  get_uncommitted_events-Collected a e = elim (Bool-cases (t.should_take_snapshot a)) [
    | inl due ↦ rw due (
        changes_from-Collected (snapshot_of t a.state a).0 (snapshot_of t a.state a).1
          (snapshot_of-IsEmitting a.state a e))
    | inr not_due ↦ rw not_due (changes_from-Collected (ok tt) a e)
  ]

  collect-Collected :
      (r : Result (Unit {0})) (a : Aggregate S A)
      → IsEmitting a
      → Collected (collect t (length old) (r, a))
  unfolding collect
  collect-Collected (err x) a e = tt
  collect-Collected (ok u) a e = get_uncommitted_events-Collected a e

  release-Collected :
      (r : Result (List (Event A)) × Aggregate S A) → Collected r → Collected (release_command t r)
  release-Collected (err x, a) h = tt
  release-Collected (ok events, a) h = h

module _ {S A : Type 0} (t : AggregateType S A) (c : Command A) (a : Aggregate S A) where
  abbrev Outcome : Result (List (Event A)) × Aggregate S A → Type 0
  Outcome = Collected t a.id a.changes a.version c

  start-Outcome :
      (busy : Option (Command A)) (handler : Command A → Aggregate S A → Behaviour S A)
      → Outcome (start t busy handler c a)
  unfolding start
  start-Outcome (some b) handler = tt
  start-Outcome none handler =
      let a' : Aggregate S A = record a { command = some c } in
      let r = run t (handler c a') a' in
      release-Collected t a.id a.changes a.version c (collect t (length a.changes) r) (
        collect-Collected t a.id a.changes a.version c r.0 r.1 (
          run-IsEmitting t a.id a.changes a.version c (handler c a') a' (record {
            same_id = refl;
            same_command = refl;
            emitted = [];
            appended = sym (append-nil a.changes);
            counted = omega arith;
            sequential = tt;
          })))

  with_handler-Outcome :
      (h : Result (Option (Command A → Aggregate S A → Behaviour S A)))
      → Outcome (with_handler t h c a)
  unfolding with_handler
  with_handler-Outcome (err x) = tt
  with_handler-Outcome (ok none) = tt
  with_handler-Outcome (ok (some h)) = start-Outcome a.command h

  handle-Outcome : Outcome (handle t c a)
  unfolding handle
  handle-Outcome = elim (Bool-cases (is_message c)) [
    | inl good ↦ rw good (with_handler-Outcome (get_optional_handler t.commands c.type))
    | inr bad ↦ rw bad tt
  ]

  -- The events that a command returns are the aggregate's, with consecutive versions from the
  -- aggregate's own on, a snapshot included, and with the command's context and saga origins. They
  -- are what was added to the changes, and the aggregate's version has passed them.
  pub handle_versions :
      (events : List (Event A))
      → (handle t c a).0 ≡ ok events
      → AreSequential a.id c a.version events
        × ((handle t c a).1.version ≡ a.version + length events)
        × ((handle t c a).1.changes ≡ a.changes ++ events)
        × ((handle t c a).1.id ≡ a.id)
  handle_versions events h =
      Collected-at t a.id a.changes a.version c (handle t c a).0 events (handle t c a).1 h
        handle-Outcome
