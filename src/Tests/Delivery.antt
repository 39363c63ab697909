-- ===== src/Tests/Delivery.antt =====
-- Pipelines, the bus, a projection and the event store at work.
use node_cqrs.Common.{
  truthy, Text, ℕ, ◌+◌, ◌≡◌, refl, Bool, true, false, ◌&&◌, none, some, [], ◌∷◌, codes, text_eq,
  lookup, if◌then◌else◌, arith, passes, ltb,
}
use node_cqrs.Common.Lists.{filter, any}
use node_cqrs.Messages.{Event, Result, ok, err, Error, plain_error, concurrency_error, is_message}
use node_cqrs.Aggregate.{get_optional_handler}
use node_cqrs.InMemory.EventStorage.{of_aggregate, commit_events, clashes}
use node_cqrs.InMemory.EventStorage
use node_cqrs.InMemory.SnapshotStorage.{get_aggregate_snapshot}
use node_cqrs.InMemory.SnapshotStorage.Latest.{has_snapshot}
use node_cqrs.InMemory.MessageBus.{Subscriptions, MessageBus, on, off, send, new_queue, handlers_of}
use node_cqrs.InMemory.MessageBus.Subscribers.{IsQueue, off_blocks_on, on-send}
use node_cqrs.Dispatch.Pipeline.{run}
use node_cqrs.Dispatch.Pipeline.AllOrNothing.{run-Outcome, Outcome}
use node_cqrs.Dispatch.Pipeline.Snapshots.{Stores, default_pipeline, refused_batch}
use node_cqrs.Projection.{
  Settings, EventLocker, ViewLocker, project_now, restore, restore_now, project_all,
}
use node_cqrs.Projection.Once.{IsFaithful, project_once}
use node_cqrs.Projection.Restoring.{restore_ready}
use node_cqrs.EventStore.{get_aggregate_events}
use node_cqrs.EventStore.Streams.{Storages, in_memory, no_options, stream_after_snapshot}
use node_cqrs.Tests.Data.{add, added, snapshot, item, stored, counter_id}

-- The storages hold an event and the snapshot of its aggregate.
abbrev stores : Stores ℕ
stores = record {
  storage = stored (added 0 (codes "1") ∷ []);
  snapshots = (counter_id, snapshot 0) ∷ [];
}

run-Outcome_example :
    Outcome default_pipeline
      (item (added 1 (codes "2")) ∷ [])
      stores
      (run default_pipeline (item (added 1 (codes "2")) ∷ []) stores)
run-Outcome_example = run-Outcome default_pipeline (item (added 1 (codes "2")) ∷ []) stores

refused_batch_example :
    let r = run default_pipeline (item (snapshot 0) ∷ []) stores in
    (r.result ≡ err concurrency_error)
    × (r.log ≡ [])
    × (r.world.storage ≡ stores.storage)
    × (get_aggregate_snapshot counter_id r.world.snapshots ≡ (
        if has_snapshot counter_id (item (snapshot 0) ∷ [])
        then none
        else get_aggregate_snapshot counter_id stores.snapshots))
unfolding EventStorage.process commit_events clashes any text_eq EventStorage.same_version
refused_batch_example =
    refused_batch (item (snapshot 0) ∷ []) stores concurrency_error counter_id
      ((λ h. (counter_id, refl, refl)), tt) refl

new_queue-IsQueue : IsQueue new_queue
unfolding lookup is_message
new_queue-IsQueue = record { unique = refl; one_each = λ type. omega arith }

abbrev one_subscribed : Subscriptions
one_subscribed = record { handlers = (codes "added", 4 ∷ []) ∷ []; unique_event_handlers = true }

off_blocks_on_example :
    (handlers_of (codes "added") (off (codes "added") 4 one_subscribed).1 ≡ [])
    × (on (codes "added") 5 (off (codes "added") 4 one_subscribed).1
        ≡ (err plain_error, (off (codes "added") 4 one_subscribed).1))
unfolding lookup text_eq
off_blocks_on_example = off_blocks_on (codes "added") 4 5 one_subscribed refl refl refl

abbrev new_bus : MessageBus
new_bus = record { own = record { handlers = []; unique_event_handlers = false }; queues = [] }

on-send_example :
    let once = record new_bus { own = (on (codes "add") 4 new_bus.own).1 } in
    let twice = record once { own = (on (codes "add") 5 once.own).1 } in
    (send add new_bus ≡ err plain_error)
    × (send add once ≡ ok 4)
    × (send add twice ≡ err plain_error)
unfolding lookup is_message
on-send_example = on-send add 4 5 new_bus refl refl refl (λ h. ground arith)

-- A view that counts the events it projected and holds its lock and the events marked.
record Counted : Type 0 where
  count : ℕ
  locked : Bool
  marked : Bool

abbrev one_event : EventLocker Counted ℕ
one_event = record {
  get_last_event = λ w. (ok none, w);
  try_mark_as_projecting = λ e w. (ok (if w.marked then false else true), w);
  mark_as_projected = λ e w. (ok tt, record w { marked = true });
  mark_as_last_event = λ e w. (ok tt, w);
}

abbrev view_lock : ViewLocker Counted
view_lock = record {
  ready = λ w. if w.locked then false else true;
  lock = λ w. (ok tt, record w { locked = true });
  unlock = λ w. record w { locked = false };
}

abbrev counting : Event ℕ → Counted → Result (Unit {0}) × Counted
counting e w = (ok tt, record w { count = w.count + 1 })

abbrev projection : Settings Counted ℕ
projection = record {
  handlers = λ type. if text_eq type (codes "added") then some counting else none;
  handles = codes "added" ∷ [];
  event_locker = some one_event;
  view_locker = some view_lock;
  should_record_last_event = λ e. true;
  get_events_by_types = λ types after w. (ok [], w);
}

abbrev Marked : Event ℕ → Counted → Type 0
Marked e w = w.marked ≡ true

one_event-IsFaithful : IsFaithful one_event Marked
one_event-IsFaithful = record {
  refuses = λ e w m. rw m refl;
  marks = λ e w w' h. ground (arith, h);
  keeps = λ e last w w' h m. ground (arith, h, m);
}

abbrev unprojected : Counted
unprojected = record { count = 0; locked = false; marked = false }

project_once_example :
    project_now projection
      (added 0 (codes "1"))
      (record { count = 1; locked = false; marked = true })
    ≡ (ok tt, record { count = 1; locked = false; marked = true })
unfolding project_now get_optional_handler text_eq
project_once_example =
    project_once projection one_event Marked one_event-IsFaithful (added 0 (codes "1")) unprojected
      unprojected (record { count = 1; locked = false; marked = true }) counting refl refl refl refl

restore_ready_example :
    ((restore projection unprojected).0
      ≡ (restore_now projection (record unprojected { locked = true })).0)
    × ((restore projection unprojected).0 ≡ ok tt
        → view_lock.ready (restore projection unprojected).1 ≡ true)
    × ((x : Error)
        → (restore projection unprojected).0 ≡ err x
        → view_lock.ready (restore projection unprojected).1 ≡ false)
unfolding restore_now project_all
restore_ready_example =
    restore_ready projection view_lock unprojected (record unprojected { locked = true }) refl refl
      refl (λ u. refl) (λ u. refl)

abbrev storages : Storages ℕ
storages = record {
  events = stored (added 0 (codes "1") ∷ snapshot 1 ∷ added 2 (codes "2") ∷ []);
  snapshots = (counter_id, snapshot 1) ∷ [];
}

stream_after_snapshot_example : get_aggregate_events in_memory counter_id no_options storages ≡ (
  ok (
      snapshot 1
      ∷ filter
          (λ f. of_aggregate counter_id f && passes (λ n. ltb 1 n) f.aggregate_version)
          storages.events.events),
  storages,
)
unfolding lookup text_eq
stream_after_snapshot_example =
    stream_after_snapshot counter_id storages (snapshot 1) 1 (λ h. cc h) refl refl
      (λ h. ground arith)

-- Identifiers that begin with the letter n.
abbrev counted_id : ℕ → Result Text × ℕ
counted_id w = (ok (b'n' ∷ w ∷ []), w + 1)

abbrev unidentified : Event ℕ
unidentified = record (added 0 []) { id = none }

counted_id-named : (u : ℕ) (id : Text) → (counted_id u).0 ≡ ok id → truthy id ≡ true
counted_id-named u [] h = absurd (cc h)
counted_id-named u (x ∷ id) h = refl
