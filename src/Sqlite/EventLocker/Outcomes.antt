-- ===== src/Sqlite/EventLocker/Outcomes.antt =====
-- What the two statements on an event's row do, by the row that they find.
use node_cqrs.Common.{◌≡◌, refl, true, false, Option, none, some, Bool}
use node_cqrs.Common.Tables.{find, put, upsert, update_row, changed, on_conflict, on_found}
use node_cqrs.Messages.{Event, Result, ok, err, plain_error}
use node_cqrs.Sqlite.Tables.{Node, event_key, EventRow, Database}
use node_cqrs.Sqlite.EventLocker.{
  Settings, event_key_of, expired_lock, finalized_lock, lock_event, finalize_event_lock,
  try_mark_as_projecting, mark_as_projected,
}

module _ {A : Type 0} (node : Node A) (o : Settings) (e : Event A) (db : Database) where
  abbrev pub row_of : Option EventRow
  row_of = find (event_key_of node o e) db.event_locks

  abbrev pub with_row : EventRow → Database
  with_row r = record db { event_locks = put (event_key_of node o e) r db.event_locks }

  abbrev pub attempted : Option EventRow
  attempted =
      on_conflict (record { processing_at = db.now; processed_at = none })
        (expired_lock o.event_lock_ttl db.now) row_of

  abbrev pub finalized : Option EventRow
  finalized = on_found (finalized_lock db.now) row_of

  abbrev pub granted : Option EventRow → Result Bool × Database
  granted none = (ok false, db)
  granted (some r) = (ok true, with_row r)

  abbrev pub confirmed : Option EventRow → Result (Unit {0}) × Database
  confirmed none = (err plain_error, db)
  confirmed (some r) = (ok tt, with_row r)

  pub try_mark_as_projecting-granted :
      (r : Option EventRow) → attempted ≡ r → try_mark_as_projecting node o e db ≡ granted r
  unfolding try_mark_as_projecting lock_event upsert changed
  try_mark_as_projecting-granted none h = rw h refl
  try_mark_as_projecting-granted (some r) h = rw h refl

  pub mark_as_projected-confirmed :
      (r : Option EventRow) → finalized ≡ r → mark_as_projected node o e db ≡ confirmed r
  unfolding mark_as_projected finalize_event_lock update_row changed
  mark_as_projected-confirmed none h = rw h refl
  mark_as_projected-confirmed (some r) h = rw h refl
