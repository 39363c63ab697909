-- ===== src/Sqlite/ViewLocker/Sharing.antt =====
-- Several lockers on the row of one view of src/sqlite/SqliteViewLocker.ts: which attempts succeed, and what
-- releasing does.
use node_cqrs.Common.{
  ◌≡◌, refl, sym, ap, ◌∙◌, ℕ, ◌+◌, ◌<◌, true, false, Option, none, some, Bool, arith, Option-cases,
  inl, inr,
}
use node_cqrs.Common.Tables.{
  find, put, upsert, update_row, changed, on_conflict, on_found, find-put_self,
}
use node_cqrs.Sqlite.Tables.{view_key, ViewRow, Database}
use node_cqrs.Sqlite.ViewLocker.{Settings, taken_over, relocked, try_lock, set_lock}

module _ (o : Settings) (db : Database) where
  abbrev pub row_of : Option ViewRow
  row_of = find o.view db.view_locks

  abbrev pub with_row : ViewRow → Database
  with_row r = record db { view_locks = put o.view r db.view_locks }

  abbrev pub fresh_row : ViewRow
  fresh_row = record { locked_till = some (db.now + o.view_lock_ttl); last_event = none }

  abbrev pub acquired : Option ViewRow → Bool × Database
  acquired none = (false, db)
  acquired (some r) = (true, with_row r)

  abbrev pub written : Option ViewRow → ℕ × Database
  written none = (0, db)
  written (some r) = (1, with_row r)

  pub try_lock-acquired :
      (r : Option ViewRow)
      → on_conflict fresh_row (taken_over (db.now + o.view_lock_ttl)) row_of ≡ r
      → try_lock o db ≡ acquired r
  unfolding try_lock upsert changed
  try_lock-acquired none h = rw h refl
  try_lock-acquired (some r) h = rw h refl

  pub set_lock-written :
      (till : Option ℕ) (r : Option ViewRow)
      → on_found (relocked till) row_of ≡ r
      → set_lock o till db ≡ written r
  unfolding set_lock update_row changed
  set_lock-written till none h = rw h refl
  set_lock-written till (some r) h = rw h refl

abbrev pub later : ℕ → Database → Database
later d db = record db { now = db.now + d }

taken_over-lem :
    (till : ℕ) (r new : ViewRow) → taken_over till r ≡ some new → new.locked_till ≡ some till
unfolding taken_over
taken_over-lem till r new h = ground arith

taken_over-earlier :
    (till held : ℕ) (r : ViewRow)
    → r.locked_till ≡ some held
    → held < till
    → taken_over till r ≡ some (record r { locked_till = some till })
unfolding taken_over
taken_over-earlier till held r at earlier = ground arith

module _ (o : Settings) where
  attempted-lem :
      (db : Database) (found : Option ViewRow) (new : ViewRow)
      → on_conflict (fresh_row o db) (taken_over (db.now + o.view_lock_ttl)) found ≡ some new
      → new.locked_till ≡ some (db.now + o.view_lock_ttl)
  unfolding on_conflict
  attempted-lem db none new h = ground arith
  attempted-lem db (some r) new h = taken_over-lem (db.now + o.view_lock_ttl) r new h

  pub try_lock-IsHeld :
      (db after : Database)
      → try_lock o db ≡ (true, after)
      → (r : ViewRow) × (row_of o after ≡ some r)
        × (r.locked_till ≡ some (db.now + o.view_lock_ttl))
        × (after.now ≡ db.now)
  try_lock-IsHeld db after h =
      elim (Option-cases
        (on_conflict (fresh_row o db) (taken_over (db.now + o.view_lock_ttl)) (row_of o db))) [
          | inl none_left ↦ absurd (cc (try_lock-acquired o db none none_left, h))
          | inr (r, found) ↦
              let p = sym (try_lock-acquired o db (some r) found) ∙ h in
              (
                r,
                ap (λ (q : Bool × Database). row_of o q.1) (sym p)
                    ∙ find-put_self o.view r db.view_locks,
                attempted-lem db (row_of o db) r found,
                ap (λ (q : Bool × Database). q.1.now) (sym p),
              )
        ]

  -- The lock over SQLite does not exclude others: if a locker obtained the lock for `viewLockTtl` milliseconds, then a
  -- locker that tries at any later time, however short of these, obtains it too, since the query compares
  -- the time that is stored with the end of the new lock and not with the present time.
  pub try_lock-later :
      (db after : Database) (d : ℕ)
      → try_lock o db ≡ (true, after)
      → 0 < d
      → (try_lock o (later d after)).0 ≡ true
  unfolding on_conflict
  try_lock-later db after d h positive =
      let (r, there, held, same) = try_lock-IsHeld db after h in
      ap (λ (q : Bool × Database). q.0)
        (try_lock-acquired o (later d after) _ (
          ap (on_conflict _ (taken_over (after.now + d + o.view_lock_ttl))) there
          ∙ taken_over-earlier (after.now + d + o.view_lock_ttl) (db.now + o.view_lock_ttl) r held
              (omega (arith, same))))
