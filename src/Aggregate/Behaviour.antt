-- ===== src/Aggregate/Behaviour.antt =====
-- `handle` of src/AbstractAggregate.ts, and the command handlers of derived classes: what a
-- handler does to its aggregate is a sequence of `emit` calls. After each it goes on from what the
-- call returned or threw and from the aggregate that it finds.
pub mod Versions
pub mod Sourcing
use node_cqrs.Common.{
  ℕ, suc, ◌+◌, Bool, true, false, Option, none, some, List, [], ◌∷◌, ◌++◌, Text, truthy, text_eq,
  or_else, if◌then◌else◌,
}
use node_cqrs.Common.Lists.{length, drop}
use node_cqrs.Messages.{
  Event, Command, Result, ok, err, Error, type_error, plain_error, is_message, snapshot_event_type,
  ◌>>=◌,
}
use node_cqrs.Aggregate.{StateType, Core, Aggregate, emit, get_optional_handler}

pub data Behaviour (S A : Type 0) : Type 0 where
  done : Behaviour S A
  fail : Error → Behaviour S A
  emits : Text → Option A → (Result (Unit {0}) → Aggregate S A → Behaviour S A) → Behaviour S A

-- A derived class: its state, its command handlers and the override of `shouldTakeSnapshot`.
pub record AggregateType (S A : Type 0) : Type 0 where
  pub state_type : StateType S A
  pub commands : Text → Option (Command A → Aggregate S A → Behaviour S A)
  pub should_take_snapshot : Aggregate S A → Bool

module _ {S A : Type 0} (t : AggregateType S A) where
  -- What `await handler.call(…)` does to the aggregate.
  unfoldable pub run : Behaviour S A → Aggregate S A → Result (Unit {0}) × Aggregate S A
  run done a = (ok tt, a)
  run (fail e) a = (err e, a)
  run (emits type payload rest) a =
      let (r, a') = emit t.state_type type payload a in run (rest r a') a'

  note_snapshot : Option ℕ → Result (Unit {0}) × Aggregate S A → Result (Unit {0}) × Aggregate S A
  note_snapshot version (ok u, a) =
      (ok tt, record a { core = record a.core { snapshot_version = version } })
  note_snapshot version (err e, a) = (err e, a)

  snapshot_of : Option S → Aggregate S A → Result (Unit {0}) × Aggregate S A
  unfolding note_snapshot
  snapshot_of none a = (err plain_error, a)
  snapshot_of (some s) a =
      note_snapshot (some a.version)
        (emit t.state_type snapshot_event_type (some (t.state_type.clone_state s)) a)

  -- `takeSnapshot`
  unfoldable pub take_snapshot : Aggregate S A → Result (Unit {0}) × Aggregate S A
  unfolding snapshot_of
  take_snapshot a = snapshot_of a.state a

  changes_from : ℕ → Result (Unit {0}) × Aggregate S A → Result (List (Event A)) × Aggregate S A
  changes_from offset (ok u, a) = (ok (drop offset a.changes), a)
  changes_from offset (err e, a) = (err e, a)

  -- `getUncommittedEvents(offset)`
  unfoldable pub get_uncommitted_events :
      ℕ → Aggregate S A → Result (List (Event A)) × Aggregate S A
  unfolding changes_from
  get_uncommitted_events offset a =
      changes_from offset (if t.should_take_snapshot a then take_snapshot a else (ok tt, a))

  collect : ℕ → Result (Unit {0}) × Aggregate S A → Result (List (Event A)) × Aggregate S A
  collect offset (ok u, a) = get_uncommitted_events offset a
  collect offset (err e, a) = (err e, a)

  -- The `finally` of `handle`.
  abbrev pub release_command :
      Result (List (Event A)) × Aggregate S A → Result (List (Event A)) × Aggregate S A
  release_command (r, a) = (r, record a { command = none })

  start :
      Option (Command A)
      → (Command A → Aggregate S A → Behaviour S A)
      → Command A
      → Aggregate S A
      → Result (List (Event A)) × Aggregate S A
  unfolding collect
  start (some busy) handler command a = (err plain_error, a)
  start none handler command a =
      let a' = record a { command = some command } in
      release_command (collect (length a.changes) (run (handler command a') a'))

  with_handler :
      Result (Option (Command A → Aggregate S A → Behaviour S A))
      → Command A
      → Aggregate S A
      → Result (List (Event A)) × Aggregate S A
  unfolding start
  with_handler (err e) command a = (err e, a)
  with_handler (ok none) command a = (err type_error, a)
  with_handler (ok (some handler)) command a = start a.command handler command a

  unfoldable pub handle : Command A → Aggregate S A → Result (List (Event A)) × Aggregate S A
  unfolding with_handler
  handle command a =
      if is_message command
      then with_handler (get_optional_handler t.commands command.type) command a
      else (err type_error, a)
