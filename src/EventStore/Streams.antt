-- ===== src/EventStore/Streams.antt =====
-- The streams of src/EventStore.ts over the storages of src/in-memory.
use node_cqrs.Common.{
  ℕ, ◌≡◌, ◌≢◌, refl, ap, ◌∙◌, false, ◌&&◌, Option, none, some, List, [], ◌∷◌, Text, Assoc, lookup,
  passes, ltb, arith, append-nil, truthy_of_ne, Option-cases, inl, inr, ◌==◌,
}
use node_cqrs.Common.Lists.{filter, last?}
use node_cqrs.Messages.{Event, ok}
use node_cqrs.InMemory.EventStorage.{
  EventStorage, of_aggregate, after_snapshot, missing_tail, of_types,
}
use node_cqrs.InMemory.EventStorage
use node_cqrs.InMemory.SnapshotStorage.{get_aggregate_snapshot}
use node_cqrs.EventStore.{EventStore, Options, get_aggregate_events, yields}

-- The storages that a container sets up by default.
pub record Storages (A : Type 0) : Type 0 where
  pub events : EventStorage A
  pub snapshots : Assoc (Event A)

module _ {A : Type 0} where
  unfoldable pub in_memory : EventStore (Storages A) A
  in_memory = record {
    reader = record {
      get_aggregate_events = λ id q w. (ok (EventStorage.get_aggregate_events id q w.events), w);
      get_saga_events = λ id before w. (EventStorage.get_saga_events id before w.events, w);
    };
    snapshot_storage = some (λ id w. (ok (get_aggregate_snapshot id w.snapshots), w));
  }

  abbrev pub no_options : Options A
  no_options = record { snapshot = none; event_types = none; tail_last = false }

  filter-All : (es : List (Event A)) → filter (of_types none) es ≡ es
  unfolding filter of_types
  filter-All [] = refl
  filter-All (e ∷ es) = ap (λ xs. e ∷ xs) (filter-All es)

  no_tail :
      (all : List (Event A)) (after : Option ℕ)
      → missing_tail (record { after_version = after; event_types = none; tail_last = false }) all
        ≡ []
  unfolding missing_tail
  no_tail all after = elim (Option-cases (last? all)) [
    | inl h ↦ rw (missing_tail, h) refl
    | inr (e, h) ↦ rw (missing_tail, h) refl
  ]

  plain_query :
      (id : Text) (after : Option ℕ) (s : EventStorage A)
      → EventStorage.get_aggregate_events id
          (record { after_version = after; event_types = none; tail_last = false })
          s
        ≡ filter (after_snapshot id after) s.events
  unfolding EventStorage.get_aggregate_events filter
  plain_query id after s =
      rw
        (
          EventStorage.get_aggregate_events,
          no_tail (filter (after_snapshot id after) s.events) after,
        )
        (append-nil (filter (of_types none) (filter (after_snapshot id after) s.events))
          ∙ filter-All (filter (after_snapshot id after) s.events))

  later_event :
      (id : Text) (v : ℕ) (f : Event A)
      → v ≢ 0
      → after_snapshot id (some v) f
        ≡ (of_aggregate id f && passes (λ n. ltb v n) f.aggregate_version)
  unfolding after_snapshot
  later_event id v f positive = rw (after_snapshot, not_zero v positive) refl
    where
      not_zero : (v : ℕ) → v ≢ 0 → (v == 0) ≡ false
      not_zero v positive = ground arith

  later_events :
      (id : Text) (v : ℕ) (es : List (Event A))
      → v ≢ 0
      → filter (after_snapshot id (some v)) es
        ≡ filter (λ f. of_aggregate id f && passes (λ n. ltb v n) f.aggregate_version) es
  later_events id v es positive = ap (λ p. filter p es) (λ i f. later_event id v f positive i)

  -- The stream of an aggregate of which a snapshot is stored, at a version above 0, is the snapshot and
  -- then the events of the aggregate with higher versions, in the order of storage. Nothing is
  -- written.
  pub stream_after_snapshot :
      (id : Text) (w : Storages A) (e : Event A) (v : ℕ)
      → id ≢ []
      → lookup id w.snapshots ≡ some e
      → e.aggregate_version ≡ some v
      → v ≢ 0
      → get_aggregate_events in_memory id no_options w ≡ (
        ok (
            e
            ∷ filter
                (λ f. of_aggregate id f && passes (λ n. ltb v n) f.aggregate_version)
                w.events.events),
        w,
      )
  unfolding get_aggregate_events in_memory get_aggregate_snapshot yields
  stream_after_snapshot id w e v named stored version positive =
      rw (truthy_of_ne id named, stored)
        (ap (λ es. (ok (e ∷ es), w))
          (plain_query id e.aggregate_version w.events
            ∙ ap (λ o. filter (after_snapshot id o) w.events.events) version
            ∙ later_events id v w.events.events positive))
