-- ===== src/Sqlite/EventLocker.antt =====
-- src/sqlite/SqliteEventLocker.ts, with the connection open.
pub mod Leases
pub mod Lasting
pub mod Outcomes
pub mod Projecting
use node_cqrs.Common.{
  ℕ, ◌+◌, true, false, not, Option, none, some, Text, truthy, leb, ◌==◌, if◌then◌else◌, Bool,
}
use node_cqrs.Common.Tables.{find, upsert, update_row}
use node_cqrs.Messages.{Event, Result, ok, err, plain_error}
use node_cqrs.Projection.{EventLocker}
use node_cqrs.Sqlite.Tables.{
  Node, ViewKey, view_key, ViewRow, EventKey, event_key, EventRow, Database, get_event_id,
}

pub record Settings : Type 0 where
  pub view : ViewKey
  pub event_lock_ttl : ℕ

-- `SET last_event = excluded.last_event`
abbrev pub with_last_event : Text → ViewRow → Option ViewRow
with_last_event json r = some (record r { last_event = some json })

-- `SET processing_at = now WHERE processed_at IS NULL AND processing_at <= now - ttl`, over the integers
unfoldable pub expired_lock : ℕ → ℕ → EventRow → Option EventRow
expired_lock ttl now r = elim r.processed_at [
  | none ↦ if leb (r.processing_at + ttl) now then some (record r { processing_at = now }) else none
  | some t ↦ none
]

-- `SET processed_at = now WHERE … AND processed_at IS NULL`
unfoldable pub finalized_lock : ℕ → EventRow → Option EventRow
finalized_lock now r = elim r.processed_at [
  | none ↦ some (record r { processed_at = some now })
  | some t ↦ none
]

module _ {A : Type 0} (node : Node A) where
  unfoldable pub parse_last : Option Text → Option (Event A)
  parse_last none = none
  parse_last (some json) = if truthy json then some (node.parse json) else none

  unfoldable pub last_of : Option ViewRow → Option (Event A)
  unfolding parse_last
  last_of none = none
  last_of (some r) = parse_last r.last_event

module _ {A : Type 0} (node : Node A) (o : Settings) where
  unfoldable pub event_key_of : Event A → EventKey
  event_key_of e = record { view = o.view; event_id = get_event_id node e }

  -- `#lockEventQuery`
  unfoldable pub lock_event : Event A → Database → ℕ × Database
  unfolding event_key_of
  lock_event e db =
      let (changes, rows) =
        upsert (event_key_of e) (record { processing_at = db.now; processed_at = none })
          (expired_lock o.event_lock_ttl db.now) db.event_locks in
      (changes, record db { event_locks = rows })

  -- `#finalizeEventLockQuery`
  unfoldable pub finalize_event_lock : Event A → Database → ℕ × Database
  unfolding event_key_of
  finalize_event_lock e db =
      let (changes, rows) = update_row (event_key_of e) (finalized_lock db.now) db.event_locks in
      (changes, record db { event_locks = rows })

  unfoldable pub try_mark_as_projecting : Event A → Database → Result Bool × Database
  unfolding lock_event
  try_mark_as_projecting e db =
      let (changes, after) = lock_event e db in (ok (not (changes == 0)), after)

  unfoldable pub mark_as_projected : Event A → Database → Result (Unit {0}) × Database
  unfolding finalize_event_lock
  mark_as_projected e db =
      let (changes, after) = finalize_event_lock e db in
      if changes == 0 then (err plain_error, after) else (ok tt, after)

  unfoldable pub mark_as_last_event : Event A → Database → Result (Unit {0}) × Database
  mark_as_last_event e db =
      let json = node.stringify e in
      let (changes, rows) =
        upsert o.view (record { locked_till = none; last_event = some json }) (with_last_event json)
          db.view_locks in
      (ok tt, record db { view_locks = rows })

  unfoldable pub get_last_event : Database → Result (Option (Event A)) × Database
  unfolding last_of
  get_last_event db = (ok (last_of node (find o.view db.view_locks)), db)
