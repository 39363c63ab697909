-- ===== src/InMemory/SnapshotStorage.antt =====
-- src/in-memory/InMemorySnapshotStorage.ts: the latest snapshot of each aggregate.
pub mod Latest
use node_cqrs.Common.{
  Bool, true, false, not, Option, none, some, List, [], ◌∷◌, Text, Assoc, lookup, insert, erase,
  truthy, passes, if◌then◌else◌,
}
use node_cqrs.Common.Lists.{filter}
use node_cqrs.Messages.{
  Event, Envelope, Batch, Result, ok, err, Error, type_error, is_snapshot_event, ◌>>=◌,
}

module _ {A : Type 0} where
  unfoldable pub get_aggregate_snapshot : Text → Assoc (Event A) → Option (Event A)
  get_aggregate_snapshot id s = lookup id s

  -- `assertDefined(event.aggregateId)`
  aggregate_key : Event A → Result Text
  aggregate_key e = elim e.aggregate_id [
    | none ↦ err type_error
    | some id ↦ if truthy id then ok id else err type_error
  ]

  change_at :
      (Text → Assoc (Event A) → Assoc (Event A))
      → Result Text
      → Assoc (Event A)
      → Result (Unit {0}) × Assoc (Event A)
  change_at f (err e) s = (err e, s)
  change_at f (ok id) s = (ok tt, f id s)

  unfoldable pub save_aggregate_snapshot :
      Event A → Assoc (Event A) → Result (Unit {0}) × Assoc (Event A)
  unfolding aggregate_key change_at
  save_aggregate_snapshot e s = change_at (λ id m. insert id e m) (aggregate_key e) s

  unfoldable pub delete_aggregate_snapshot :
      Event A → Assoc (Event A) → Result (Unit {0}) × Assoc (Event A)
  unfolding aggregate_key change_at
  delete_aggregate_snapshot e s = change_at erase (aggregate_key e) s

  -- `isSnapshotEvent(e.event)`
  abbrev pub holds_snapshot : Envelope A → Bool
  holds_snapshot item = passes is_snapshot_event item.event

  go_on :
      (Assoc (Event A) → Result (Unit {0}) × Assoc (Event A))
      → Result (Unit {0}) × Assoc (Event A)
      → Result (Unit {0}) × Assoc (Event A)
  go_on rest (ok u, s) = rest s
  go_on rest (err e, s) = (err e, s)

  on_snapshot :
      (Event A → Assoc (Event A) → Result (Unit {0}) × Assoc (Event A))
      → Option (Event A)
      → Assoc (Event A)
      → Result (Unit {0}) × Assoc (Event A)
  on_snapshot f none s = (ok tt, s)
  on_snapshot f (some e) s = if is_snapshot_event e then f e s else (ok tt, s)

  -- The action on each snapshot event of the batch in turn, until one throws.
  unfoldable pub for_snapshots :
      (Event A → Assoc (Event A) → Result (Unit {0}) × Assoc (Event A))
      → Batch A
      → Assoc (Event A)
      → Result (Unit {0}) × Assoc (Event A)
  unfolding go_on on_snapshot
  for_snapshots f [] s = (ok tt, s)
  for_snapshots f (item ∷ batch) s = go_on (for_snapshots f batch) (on_snapshot f item.event s)

  unfoldable pub process : Batch A → Assoc (Event A) → Result (Batch A) × Assoc (Event A)
  unfolding for_snapshots save_aggregate_snapshot
  process batch s =
      let (r, s') = for_snapshots save_aggregate_snapshot batch s in
      (r >>= (λ u. ok (filter (λ item. not (holds_snapshot item)) batch)), s')

  unfoldable pub revert : Batch A → Assoc (Event A) → Result (Unit {0}) × Assoc (Event A)
  unfolding for_snapshots delete_aggregate_snapshot
  revert batch s = for_snapshots delete_aggregate_snapshot batch s
