-- ===== src/Sqlite/EventLocker/Projecting.antt =====
-- What SqliteEventLocker promises a projection: an event marked as projected is never handed out again.
use node_cqrs.Common.{
  ◌≡◌, refl, sym, ap, ◌∙◌, ℕ, false, Option, none, some, arith, Option-cases, inl, inr,
}
use node_cqrs.Common.Tables.{on_conflict, on_found, find-put_self}
use node_cqrs.Messages.{Event, Result, ok}
use node_cqrs.Projection.{EventLocker}
use node_cqrs.Projection.Once.{IsFaithful}
use node_cqrs.Sqlite.Tables.{Node, event_key, EventRow, Database}
use node_cqrs.Sqlite.EventLocker.{
  Settings, event_key_of, expired_lock, finalized_lock, try_mark_as_projecting, mark_as_projected,
  mark_as_last_event, get_last_event,
}
use node_cqrs.Sqlite.EventLocker.Outcomes.{
  row_of, finalized, try_mark_as_projecting-granted, mark_as_projected-confirmed,
}

pub expired_lock-processed :
    (ttl now t : ℕ) (r : EventRow) → r.processed_at ≡ some t → expired_lock ttl now r ≡ none
unfolding expired_lock
expired_lock-processed ttl now t r h = rw h refl

module _ {A : Type 0} (node : Node A) (o : Settings) where
  -- The event has a row that says when it was processed.
  abbrev pub IsProcessed : Event A → Database → Type 0
  IsProcessed e db =
      (r : EventRow) × (t : ℕ) × (row_of node o e db ≡ some r) × (r.processed_at ≡ some t)

  refuses :
      (e : Event A) (db : Database)
      → IsProcessed e db
      → try_mark_as_projecting node o e db ≡ (ok false, db)
  unfolding on_conflict
  refuses e db (r, t, there, at) = try_mark_as_projecting-granted node o e db none (
      ap (on_conflict _ (expired_lock o.event_lock_ttl db.now)) there
      ∙ expired_lock-processed o.event_lock_ttl db.now t r at)

  finalized_lock-processed :
      (now : ℕ) (old r : EventRow) → finalized_lock now old ≡ some r → r.processed_at ≡ some now
  unfolding finalized_lock
  finalized_lock-processed now old r h = ground arith

  finalized-processed :
      (now : ℕ) (found : Option EventRow) (r : EventRow)
      → on_found (finalized_lock now) found ≡ some r
      → r.processed_at ≡ some now
  unfolding on_found
  finalized-processed now none r h = absurd (cc h)
  finalized-processed now (some old) r h = finalized_lock-processed now old r h

  marks :
      (e : Event A) (db after : Database)
      → mark_as_projected node o e db ≡ (ok tt, after)
      → IsProcessed e after
  marks e db after h = elim (Option-cases (finalized node o e db)) [
    | inl none_found ↦ absurd (cc (mark_as_projected-confirmed node o e db none none_found, h))
    | inr (r, found) ↦
        let p = sym (mark_as_projected-confirmed node o e db (some r) found) ∙ h in
        (
          r,
          db.now,
          ap (λ (q : Result (Unit {0}) × Database). row_of node o e q.1) (sym p)
              ∙ find-put_self (event_key_of node o e) r db.event_locks,
          finalized-processed db.now (row_of node o e db) r found,
        )
  ]

  keeps :
      (e last : Event A) (db after : Database)
      → mark_as_last_event node o last db ≡ (ok tt, after)
      → IsProcessed e db
      → IsProcessed e after
  unfolding mark_as_last_event
  keeps e last db after h (r, t, there, at) =
      (r, t, ap (λ (q : Result (Unit {0}) × Database). row_of node o e q.1) (sym h) ∙ there, at)

  abbrev pub sqlite_event_locker : EventLocker Database A
  sqlite_event_locker = record {
    get_last_event = get_last_event node o;
    try_mark_as_projecting = try_mark_as_projecting node o;
    mark_as_projected = mark_as_projected node o;
    mark_as_last_event = mark_as_last_event node o;
  }

  -- The locker over SQLite keeps the promise that a projection rests on: an event marked as projected has a row
  -- with the time of it, such an event is refused, and a checkpoint leaves the row.
  pub sqlite_event_locker-IsFaithful : IsFaithful sqlite_event_locker IsProcessed
  sqlite_event_locker-IsFaithful = record { refuses = refuses; marks = marks; keeps = keeps }
