-- ===== src/Dispatch/Pipeline/Snapshots.antt =====
-- The two in-memory storages in one pipeline, in the order in which src/CqrsContainerBuilder.ts
-- puts them, for a container without an augmenter of event identifiers, which would come first.
use node_cqrs.Common.{◌≡◌, ap, none, some, List, [], ◌∷◌, Text, Assoc, arith, if◌then◌else◌}
use node_cqrs.Messages.{Event, Batch, Result, ok, err, Error}
use node_cqrs.InMemory.EventStorage
use node_cqrs.InMemory.EventStorage.{EventStorage}
use node_cqrs.InMemory.SnapshotStorage
use node_cqrs.InMemory.SnapshotStorage.{get_aggregate_snapshot}
use node_cqrs.InMemory.SnapshotStorage.Latest.{IsKeyed, has_snapshot, revert_lookup}
use node_cqrs.Dispatch.Pipeline.{
  Processor, run_processors, stage, record_outcome, revert, revert_one, go_on, rejected, settle,
  run,
}

pub record Stores (A : Type 0) : Type 0 where
  pub storage : EventStorage A
  pub snapshots : Assoc (Event A)

module _ {A : Type 0} where
  abbrev pub event_processor : Processor (Stores A) A
  event_processor = record {
    process = λ items w.
        let (r, s) = EventStorage.process items w.storage in (r, record w { storage = s });
    revert = none;
  }

  abbrev pub snapshot_processor : Processor (Stores A) A
  snapshot_processor = record {
    process = λ items w.
        let (r, s) = SnapshotStorage.process items w.snapshots in (r, record w { snapshots = s });
    revert = some (λ items w.
        let (r, s) = SnapshotStorage.revert items w.snapshots in (r, record w { snapshots = s }));
  }

  abbrev pub default_pipeline : List (Processor (Stores A) A)
  default_pipeline = event_processor ∷ snapshot_processor ∷ []

  commit_batch-refused :
      (items : Batch A) (r : Result (List (Event A))) (s : EventStorage A) (e : Error)
      → (EventStorage.commit_batch items r s).0 ≡ err e
      → EventStorage.commit_batch items r s ≡ (err e, s)
  unfolding EventStorage.commit_batch EventStorage.commit_events
  commit_batch-refused items (err x) s e h = ap (λ r. (r, s)) h
  commit_batch-refused items (ok events) s e h = ground arith

  process-refused :
      (items : Batch A) (s : EventStorage A) (e : Error)
      → (EventStorage.process items s).0 ≡ err e
      → EventStorage.process items s ≡ (err e, s)
  unfolding EventStorage.process
  process-refused items s e h = commit_batch-refused items (EventStorage.batch_events items) s e h

  -- A batch that the event storage refuses, where the snapshots of the batch name their aggregates: its error is the caller's, nothing is
  -- published, no event is stored or lost, and
  -- the snapshot that an aggregate had before the batch is gone if the batch has one of it.
  pub refused_batch :
      (items : Batch A) (w : Stores A) (e : Error) (id : Text)
      → IsKeyed items
      → (EventStorage.process items w.storage).0 ≡ err e
      → let r = run default_pipeline items w in
        (r.result ≡ err e)
        × (r.log ≡ [])
        × (r.world.storage ≡ w.storage)
        × (get_aggregate_snapshot id r.world.snapshots
            ≡ (if has_snapshot id items then none else get_aggregate_snapshot id w.snapshots))
  unfolding run run_processors stage record_outcome settle rejected revert revert_one go_on
  refused_batch items w e id k h =
      let reverted = revert_lookup items w.snapshots id k in
      rw (process-refused items w.storage e h) (ground (arith, reverted.0, reverted.1))
