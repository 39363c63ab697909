-- ===== src/Aggregate.antt =====
-- src/AbstractAggregate.ts: the base class of aggregates, over what a derived class supplies.
pub mod Behaviour
pub mod Replay
use node_cqrs.Common.{
  ℕ, suc, ◌+◌, Bool, true, false, Option, none, some, List, [], ◌∷◌, ◌++◌, Text, truthy, text_eq,
  or_else, if◌then◌else◌, Assoc,
}
use node_cqrs.Common.Lists.{length, drop}
use node_cqrs.Messages.{
  Event, Command, Result, ok, err, Error, type_error, plain_error, is_message, is_snapshot_event,
  snapshot_event_type, guard, ◌>>=◌, ◌>>◌,
}

-- What a derived class supplies: `S` is the type of its state object, whose handlers may throw and
-- leave it changed. `clone_state` is `clone(state)`, and `assign` is `Object.assign(state, clone(v))`.
pub record StateType (S A : Type 0) : Type 0 where
  pub mutate : Option (Event A → S → Result (Unit {0}) × S)
  pub methods : Text → Option (Event A → S → Result (Unit {0}) × S)
  pub clone_state : S → A
  pub assign : A → S → S

-- The part of an aggregate that events change.
pub record Core (S : Type 0) : Type 0 where
  pub version : ℕ
  pub snapshot_version : Option ℕ
  pub state : Option S

pub record Aggregate (S A : Type 0) : Type 0 where
  pub id : Text
  pub core : Core S
  pub open core use *
  pub changes : List (Event A)
  pub command : Option (Command A)

-- `getOptionalHandler`: the public method, or the one with an underscore.
unfoldable pub get_optional_handler {ℓ} :
    {M : Type ℓ} → (Text → Option M) → Text → Result (Option M)
get_optional_handler methods type = do
  guard (truthy type) type_error
  ok (elim (methods type) [ none ↦ methods (b'_' ∷ type) | some m ↦ some m ])

module _ {S A : Type 0} (t : StateType S A) where
  run_handler :
      Result (Option (Event A → S → Result (Unit {0}) × S)) → Event A → S → Result (Unit {0}) × S
  run_handler (err e) event s = (err e, s)
  run_handler (ok none) event s = (ok tt, s)
  run_handler (ok (some handler)) event s = handler event s

  state_handler : Event A → Result (Option (Event A → S → Result (Unit {0}) × S))
  state_handler event = elim t.mutate [
    | none ↦ get_optional_handler t.methods event.type
    | some m ↦ ok (some m)
  ]

  unfoldable pub mutate_state : Event A → Option S → Result (Unit {0}) × Option S
  unfolding run_handler state_handler
  mutate_state event none = (ok tt, none)
  mutate_state event (some s) =
      let (r, s') = run_handler (state_handler event) event s in (r, some s')

  restored : Option A → Option S → Result (Unit {0}) × Option S
  restored payload none = (err plain_error, none)
  restored none (some s) = (err type_error, some s)
  restored (some v) (some s) = (ok tt, some (t.assign v s))

  -- `restoreSnapshot`
  unfoldable pub restore_snapshot : Event A → Option S → Result (Unit {0}) × Option S
  unfolding restored
  restore_snapshot event state =
      if is_snapshot_event event then restored event.payload state else (err type_error, state)

  finish_mutation : Result (Unit {0}) × Option S → Core S → Result (Unit {0}) × Core S
  finish_mutation (ok u, state) c = (ok tt, record c { version = c.version + 1; state = state })
  finish_mutation (err e, state) c = (err e, record c { state = state })

  unfoldable pub mutate : Event A → Core S → Result (Unit {0}) × Core S
  unfolding mutate_state restore_snapshot finish_mutation
  mutate event c =
      let c' = record c { version = or_else event.aggregate_version c.version } in
      if text_eq event.type snapshot_event_type
      then finish_mutation (restore_snapshot event c'.state)
          (record c' { snapshot_version = event.aggregate_version })
      else finish_mutation (mutate_state event c'.state) c'

  -- `makeEvent`: the command's context and saga origins go into the event.
  unfoldable pub make_event : Text → Option A → Aggregate S A → Event A
  make_event type payload a = record {
    id = none;
    type = type;
    aggregate_id = some a.id;
    aggregate_version = some a.version;
    saga_origins = elim a.command [ none ↦ none | some c ↦ c.saga_origins ];
    payload = payload;
    context = elim a.command [ none ↦ none | some c ↦ c.context ];
  }

  register :
      Event A → Result (Unit {0}) × Core S → Aggregate S A → Result (Unit {0}) × Aggregate S A
  register event (ok u, c) a = (ok tt, record a { core = c; changes = a.changes ++ event ∷ [] })
  register event (err e, c) a = (err e, record a { core = c })

  -- `emitRaw`, for an event that has an aggregate version
  unfoldable pub emit_raw : Event A → Aggregate S A → Result (Unit {0}) × Aggregate S A
  unfolding register
  emit_raw event a =
      if truthy (or_else event.aggregate_id [])
      then register event (mutate event a.core) a
      else (err type_error, a)

  unfoldable pub emit : Text → Option A → Aggregate S A → Result (Unit {0}) × Aggregate S A
  emit type payload a =
      if truthy type then emit_raw (make_event type payload a) a else (err type_error, a)

  -- The loop that restores an aggregate: `mutate` for each event, until one throws.
  replay_rest :
      (Core S → Result (Unit {0}) × Core S)
      → Result (Unit {0}) × Core S
      → Result (Unit {0}) × Core S
  replay_rest rest (ok u, c) = rest c
  replay_rest rest (err e, c) = (err e, c)

  unfoldable pub replay : List (Event A) → Core S → Result (Unit {0}) × Core S
  unfolding replay_rest
  replay [] c = (ok tt, c)
  replay (e ∷ es) c = replay_rest (replay es) (mutate e c)
