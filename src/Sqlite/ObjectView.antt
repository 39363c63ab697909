-- ===== src/Sqlite/ObjectView.antt =====
-- src/sqlite/AbstractSqliteView.ts and src/sqlite/SqliteObjectView.ts: a view that passes its calls on to the lockers and the storage, whose
-- tables stand in one database. A call that awaits the view has no result.
pub mod Projecting
use node_cqrs.Common.{ℕ, Bool, Option, none, some, Text, if◌then◌else◌}
use node_cqrs.Common.Json.{Json}
use node_cqrs.Messages.{Event, Result}
use node_cqrs.Sqlite.Tables.{Node, ViewKey, Database}
use node_cqrs.Sqlite.EventLocker as EventLocker
use node_cqrs.Sqlite.ViewLocker as ViewLocker
use node_cqrs.Sqlite.ObjectStorage as ObjectStorage
use node_cqrs.Sqlite.ObjectStorage.{Rows}

pub record Settings : Type 0 where
  pub view : ViewKey
  pub event_lock_ttl : ℕ
  pub view_lock_ttl : ℕ

pub record View : Type 0 where
  pub locks : ViewLocker.World
  pub records : Rows

unfoldable pub event_locker_of : Settings → EventLocker.Settings
event_locker_of o = record { view = o.view; event_lock_ttl = o.event_lock_ttl }

unfoldable pub view_locker_of : Settings → ViewLocker.Settings
view_locker_of o = record { view = o.view; view_lock_ttl = o.view_lock_ttl }

unfoldable pub with_locks : View → Database → View
with_locks v db = record v { locks = record v.locks { db = db } }

unfoldable pub with_records : View → Rows → View
with_records v t = record v { records = t }

unfoldable pub ready : View → Bool
ready v = ViewLocker.ready v.locks

module _ (o : Settings) where
  unfoldable pub lock : ℕ → (Database → Database) → View → Option View
  lock fuel idle v = elim (ViewLocker.lock (view_locker_of o) fuel idle v.locks) [
    | none ↦ none
    | some locks ↦ some (record v { locks = locks })
  ]

  unfoldable pub unlock : View → View
  unlock v = record v { locks = ViewLocker.unlock (view_locker_of o) v.locks }

module _ {A : Type 0} (node : Node A) (o : Settings) where
  unfoldable pub get_last_event : View → Result (Option (Event A)) × View
  unfolding with_locks
  get_last_event v =
      let (r, db) = EventLocker.get_last_event node (event_locker_of o) v.locks.db in
      (r, with_locks v db)

  unfoldable pub try_mark_as_projecting : Event A → View → Result Bool × View
  unfolding with_locks
  try_mark_as_projecting e v =
      let (r, db) = EventLocker.try_mark_as_projecting node (event_locker_of o) e v.locks.db in
      (r, with_locks v db)

  unfoldable pub mark_as_projected : Event A → View → Result (Unit {0}) × View
  unfolding with_locks
  mark_as_projected e v =
      let (r, db) = EventLocker.mark_as_projected node (event_locker_of o) e v.locks.db in
      (r, with_locks v db)

  unfoldable pub mark_as_last_event : Event A → View → Result (Unit {0}) × View
  unfolding with_locks
  mark_as_last_event e v =
      let (r, db) = EventLocker.mark_as_last_event node (event_locker_of o) e v.locks.db in
      (r, with_locks v db)

module _ {V : Type 0} (guid : Text → Text) (json : Json V) where
  unfoldable pub get : Text → View → Option (Result (Option V) × View)
  unfolding with_records
  get id v =
      let (r, t) = ObjectStorage.get guid json id v.records in
      if ready v then some (r, with_records v t) else none

  unfoldable pub get_sync : Text → View → Option V
  get_sync id v = ObjectStorage.read guid json id v.records

  unfoldable pub create : Text → V → View → Result (Unit {0}) × View
  unfolding with_records
  create id value v =
      let (r, t) = ObjectStorage.create guid json id value v.records in (r, with_records v t)

  unfoldable pub update : Text → (V → Result V) → (Rows → Rows) → View → Result (Unit {0}) × View
  unfolding with_records
  update id change meanwhile v =
      let (r, t) = ObjectStorage.update guid json id change meanwhile v.records in
      (r, with_records v t)

  unfoldable pub update_enforcing_new :
      Text → (Option V → Result V) → (Rows → Rows) → View → Result (Unit {0}) × View
  unfolding with_records
  update_enforcing_new id change meanwhile v =
      let (r, t) = ObjectStorage.update_enforcing_new guid json id change meanwhile v.records in
      (r, with_records v t)

  unfoldable pub delete : Text → View → Result Bool × View
  unfolding with_records
  delete id v = let (r, t) = ObjectStorage.delete guid json id v.records in (r, with_records v t)
