-- ===== src/Sqlite/ViewLocker.antt =====
-- src/sqlite/SqliteViewLocker.ts, with the connection open. The marker that callers wait for is set or not; a timer is
-- the time at which it fires, and the loop of `lock` runs on fuel, its number of attempts. A worker that waits in the
-- loop sees what others wrote meanwhile: `idle` is what happens to the database while it waits.
pub mod Sharing
pub mod Releasing
pub mod Checkpoints
use node_cqrs.Common.{
  ℕ, ◌+◌, zero, suc, true, false, not, Option, none, some, Text, ltb, ◌==◌, if◌then◌else◌, Bool,
}
use node_cqrs.Common.Tables.{upsert, update_row}
use node_cqrs.Messages.{Result, ok, err, plain_error, type_error}
use node_cqrs.Sqlite.Tables.{ViewKey, view_key, ViewRow, Database}
use Prim.Native.Nat.{◌/◌}

pub record Settings : Type 0 where
  pub view : ViewKey
  pub view_lock_ttl : ℕ

pub record Locker : Type 0 where
  pub lock_marker : Bool
  pub lock_prolongation_timeout : Option ℕ

pub record World : Type 0 where
  pub locker : Locker
  pub db : Database

-- `SET locked_till = excluded.locked_till WHERE locked_till IS NULL OR locked_till < excluded.locked_till`
unfoldable pub taken_over : ℕ → ViewRow → Option ViewRow
taken_over till r = elim r.locked_till [
  | none ↦ some (record r { locked_till = some till })
  | some held ↦ if ltb held till then some (record r { locked_till = some till }) else none
]

-- `SET locked_till = … WHERE … AND locked_till IS NOT NULL`
unfoldable pub relocked : Option ℕ → ViewRow → Option ViewRow
relocked till r = elim r.locked_till [
  | none ↦ none
  | some held ↦ some (record r { locked_till = till })
]

unfoldable pub ready : World → Bool
ready w = not w.locker.lock_marker

module _ (o : Settings) where
  -- `#upsertTableLockQuery`, and the test of its result
  unfoldable pub try_lock : Database → Bool × Database
  try_lock db =
      let till = db.now + o.view_lock_ttl in
      let (changes, rows) =
        upsert o.view (record { locked_till = some till; last_event = none }) (taken_over till)
          db.view_locks in
      (changes == 1, record db { view_locks = rows })

  -- `#updateTableLockQuery` and `#removeTableLockQuery`
  unfoldable pub set_lock : Option ℕ → Database → ℕ × Database
  set_lock till db =
      let (changes, rows) = update_row o.view (relocked till) db.view_locks in
      (changes, record db { view_locks = rows })

  -- The `while` loop of `lock`, with `delay(viewLockTtl / 2)` between two attempts.
  unfoldable pub attempt_lock : ℕ → (Database → Database) → Database → Option Database
  unfolding try_lock
  attempt_lock zero idle db = none
  attempt_lock (suc fuel) idle db =
      let (acquired, after) = try_lock db in
      let rest =
        attempt_lock fuel idle (idle (record after { now = after.now + o.view_lock_ttl / 2 })) in
      if acquired then some after else rest

  unfoldable pub schedule_lock_prolongation : World → World
  schedule_lock_prolongation w = record w {
    locker = record w.locker { lock_prolongation_timeout = some (w.db.now + o.view_lock_ttl / 2) };
  }

  unfoldable pub cancel_lock_prolongation : World → World
  cancel_lock_prolongation w = record w {
    locker = record w.locker { lock_prolongation_timeout = none };
  }

  unfoldable pub marked : World → World
  marked w = record w { locker = record w.locker { lock_marker = true } }

  unfoldable pub lock : ℕ → (Database → Database) → World → Option World
  unfolding attempt_lock schedule_lock_prolongation marked
  lock fuel idle w = elim (attempt_lock fuel idle w.db) [
    | none ↦ none
    | some db ↦ some (schedule_lock_prolongation (record (marked w) { db = db }))
  ]

  unfoldable pub prolong_lock : World → Result (Unit {0}) × World
  prolong_lock w =
      let (changes, db) = set_lock (some (w.db.now + o.view_lock_ttl)) w.db in
      if changes == 1
      then (ok tt, record w { db = db })
      else (err plain_error, record w { db = db })

  unfoldable pub unlock : World → World
  unfolding cancel_lock_prolongation
  unlock w =
      let free =
        cancel_lock_prolongation (record w { locker = record w.locker { lock_marker = false } }) in
      record free { db = (set_lock none w.db).1 }
