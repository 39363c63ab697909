-- ===== src/InMemory/SnapshotStorage/Latest.antt =====
-- What a batch does to the stored snapshot of an aggregate.
use node_cqrs.Common.{
  ◌≡◌, refl, ap, ◌∙◌, Bool, true, false, not, ◌&&◌, Option, none, some, [], ◌∷◌, Text, Assoc,
  lookup, truthy, passes, if◌then◌else◌, arith, text_eq, lookup-insert, lookup-erase, Bool-cases,
  inl, inr,
}
use node_cqrs.Common.Lists.{filter, All, any}
use node_cqrs.Messages.{Event, Batch, Result, ok, err, is_snapshot_event}
use node_cqrs.InMemory.SnapshotStorage.{
  get_aggregate_snapshot, save_aggregate_snapshot, delete_aggregate_snapshot, holds_snapshot, go_on,
  on_snapshot, for_snapshots, process, revert,
}

module _ {A : Type 0} where
  -- The event, if it is a snapshot, names its aggregate.
  abbrev pub KeyedEvent : Option (Event A) → Type 0
  KeyedEvent none = Unit
  KeyedEvent (some e) =
      is_snapshot_event e ≡ true → (id : Text) × (e.aggregate_id ≡ some id) × (truthy id ≡ true)

  -- Every snapshot in the batch names its aggregate.
  abbrev pub IsKeyed : Batch A → Type 0
  IsKeyed = All λ item. KeyedEvent item.event

  -- The event is a snapshot of the aggregate.
  unfoldable pub snapshots : Text → Option (Event A) → Bool
  snapshots id none = false
  snapshots id (some e) = is_snapshot_event e && passes (λ i. text_eq i id) e.aggregate_id

  -- The batch has a snapshot of the aggregate.
  unfoldable pub has_snapshot : Text → Batch A → Bool
  has_snapshot id = any λ item. snapshots id item.event

  -- The last snapshot of the aggregate in the batch, and otherwise the one before.
  unfoldable pub latest : Text → Batch A → Option (Event A) → Option (Event A)
  latest id [] old = old
  latest id (item ∷ batch) old =
      latest id batch (if snapshots id item.event then item.event else old)

  delete_one :
      (o : Option (Event A)) (s : Assoc (Event A)) (id : Text)
      → KeyedEvent o
      → ((on_snapshot delete_aggregate_snapshot o s).0 ≡ ok tt)
        × (lookup id (on_snapshot delete_aggregate_snapshot o s).1
            ≡ (if snapshots id o then none else lookup id s))
  unfolding on_snapshot delete_aggregate_snapshot snapshots
  delete_one none s id k = (refl, refl)
  delete_one (some e) s id k = elim (Bool-cases (is_snapshot_event e)) [
    | inr other ↦ ground (arith, other)
    | inl snap ↦
        let (i, at_i, good) = k snap in ground (arith, snap, at_i, good, lookup-erase i id s)
  ]

  save_one :
      (o : Option (Event A)) (s : Assoc (Event A)) (id : Text)
      → KeyedEvent o
      → ((on_snapshot save_aggregate_snapshot o s).0 ≡ ok tt)
        × (lookup id (on_snapshot save_aggregate_snapshot o s).1
            ≡ (if snapshots id o then o else lookup id s))
  unfolding on_snapshot save_aggregate_snapshot snapshots
  save_one none s id k = (refl, refl)
  save_one (some e) s id k = elim (Bool-cases (is_snapshot_event e)) [
    | inr other ↦ ground (arith, other)
    | inl snap ↦
        let (i, at_i, good) = k snap in ground (arith, snap, at_i, good, lookup-insert i id e s)
  ]

  go_on-ok :
      (rest : Assoc (Event A) → Result (Unit {0}) × Assoc (Event A))
      (r : Result (Unit {0}) × Assoc (Event A))
      → r.0 ≡ ok tt
      → go_on rest r ≡ rest r.1
  unfolding go_on
  go_on-ok rest (ok u, s) h = refl
  go_on-ok rest (err e, s) h = absurd (cc h)

  -- After a revert no aggregate that has a snapshot in the batch has one in the storage, whichever
  -- was stored there; the snapshots of the others are as they were.
  pub revert_lookup :
      (batch : Batch A) (s : Assoc (Event A)) (id : Text)
      → IsKeyed batch
      → ((revert batch s).0 ≡ ok tt)
        × (get_aggregate_snapshot id (revert batch s).1
            ≡ (if has_snapshot id batch then none else get_aggregate_snapshot id s))
  unfolding revert get_aggregate_snapshot has_snapshot any
  revert_lookup [] s id k = (refl, refl)
  revert_lookup (item ∷ batch) s id k =
      let one = delete_one item.event s id k.0 in
      let rest =
        revert_lookup batch (on_snapshot delete_aggregate_snapshot item.event s).1 id k.1 in
      rw
        (go_on-ok (for_snapshots delete_aggregate_snapshot batch)
          (on_snapshot delete_aggregate_snapshot item.event s) one.0)
        (rest.0, ground (arith, rest.1, one.1))

  process_saves :
      (batch : Batch A) (s : Assoc (Event A)) (id : Text)
      → IsKeyed batch
      → ((for_snapshots save_aggregate_snapshot batch s).0 ≡ ok tt)
        × (lookup id (for_snapshots save_aggregate_snapshot batch s).1
            ≡ latest id batch (lookup id s))
  unfolding for_snapshots latest
  process_saves [] s id k = (refl, refl)
  process_saves (item ∷ batch) s id k =
      let one = save_one item.event s id k.0 in
      let rest = process_saves batch (on_snapshot save_aggregate_snapshot item.event s).1 id k.1 in
      rw
        (go_on-ok (for_snapshots save_aggregate_snapshot batch)
          (on_snapshot save_aggregate_snapshot item.event s) one.0)
        (rest.0, rest.1 ∙ ap (latest id batch) one.1)

  -- After a batch was processed, the last snapshot of an aggregate in it is the stored one; an
  -- aggregate without any in the batch keeps its own. The batch goes on without its snapshots.
  pub process_lookup :
      (batch : Batch A) (s : Assoc (Event A)) (id : Text)
      → IsKeyed batch
      → ((process batch s).0 ≡ ok (filter (λ item. not (holds_snapshot item)) batch))
        × (get_aggregate_snapshot id (process batch s).1
            ≡ latest id batch (get_aggregate_snapshot id s))
  unfolding process get_aggregate_snapshot
  process_lookup batch s id k = let saved = process_saves batch s id k in (rw saved.0, saved.1)
