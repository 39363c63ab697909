-- ===== src/EventStore.antt =====
-- src/EventStore.ts: `getAggregateEvents` and `getSagaEvents`, over a reader of stored events and, where
-- there is one, a snapshot storage. A generator is the list of what it yields. Logging is left out,
-- and so are `once` and the methods that only pass a call on.
pub mod Streams
use node_cqrs.Common.{
  Bool, true, false, not, Option, none, some, List, [], ◌∷◌, Text, lookup, truthy, passes_text,
  passes, text_eq, if◌then◌else◌,
}
use node_cqrs.Messages.{Event, Result, ok, err, Error, type_error, guard, ◌>>=◌, ◌>>◌}
use node_cqrs.Utils.SagaId.{parse_saga_id}
use node_cqrs.InMemory.EventStorage.{Query, has_origin}

-- `IEventStorageReader`
pub record Reader (W A : Type 0) : Type 0 where
  pub get_aggregate_events : Text → Query → W → Result (List (Event A)) × W
  pub get_saga_events : Text → Event A → W → Result (List (Event A)) × W

pub record EventStore (W A : Type 0) : Type 0 where
  pub reader : Reader W A
  pub snapshot_storage : Option (Text → W → Result (Option (Event A)) × W)

-- `options` of `getAggregateEvents`
pub record Options (A : Type 0) : Type 0 where
  pub snapshot : Option (Event A)
  pub event_types : Option (List Text)
  pub tail_last : Bool

module _ {W A : Type 0} (t : EventStore W A) where
  -- The snapshot given, or else the stored one.
  find_snapshot :
      Option (Event A)
      → Option (Text → W → Result (Option (Event A)) × W)
      → Text
      → W
      → Result (Option (Event A)) × W
  find_snapshot (some e) storage id w = (ok (some e), w)
  find_snapshot none none id w = (ok none, w)
  find_snapshot none (some get) id w = get id w

  abbrev pub query_after : Options A → Option (Event A) → Query
  query_after o snapshot = record {
    after_version = elim snapshot [ none ↦ none | some e ↦ e.aggregate_version ];
    event_types = o.event_types;
    tail_last = o.tail_last;
  }

  yields : Option (Event A) → Result (List (Event A)) × W → Result (List (Event A)) × W
  yields none r = r
  yields (some e) (ok es, w) = (ok (e ∷ es), w)
  yields (some e) (err x, w) = (err x, w)

  stream : Text → Options A → Result (Option (Event A)) × W → Result (List (Event A)) × W
  unfolding yields
  stream id o (err x, w) = (err x, w)
  stream id o (ok snapshot, w) =
      yields snapshot (t.reader.get_aggregate_events id (query_after o snapshot) w)

  unfoldable pub get_aggregate_events : Text → Options A → W → Result (List (Event A)) × W
  unfolding find_snapshot stream
  get_aggregate_events id o w =
      if truthy id
      then stream id o (find_snapshot o.snapshot t.snapshot_storage id w)
      else (err type_error, w)

  -- The checks at the start of `getSagaEvents`.
  saga_guards : Text → Event A → Result (Unit {0})
  saga_guards saga_id before = do
    guard (truthy saga_id) type_error
    guard (passes truthy before.id) type_error
    parts ← parse_saga_id saga_id
    guard (has_origin parts.0 parts.1 before) type_error

  guarded : Result (Unit {0}) → Text → Event A → W → Result (List (Event A)) × W
  guarded (err x) saga_id before w = (err x, w)
  guarded (ok u) saga_id before w = t.reader.get_saga_events saga_id before w

  unfoldable pub get_saga_events : Text → Event A → W → Result (List (Event A)) × W
  unfolding saga_guards guarded
  get_saga_events saga_id before w = guarded (saga_guards saga_id before) saga_id before w
