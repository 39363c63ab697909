-- ===== src/Sqlite/ViewLocker/Releasing.antt =====
-- What `unlock` of src/sqlite/SqliteViewLocker.ts leaves behind.
use node_cqrs.Common.{
  ◌≡◌, refl, sym, ap, subst, ◌∙◌, ℕ, ◌+◌, true, Option, none, some, Bool, arith, Option-cases, inl,
  inr,
}
use node_cqrs.Common.Tables.{on_conflict, on_found, find-put_self}
use node_cqrs.Messages.{err, plain_error}
use node_cqrs.Sqlite.Tables.{view_key, ViewRow, Database}
use node_cqrs.Sqlite.ViewLocker.{
  Settings, World, taken_over, relocked, ready, try_lock, set_lock, prolong_lock, unlock,
  cancel_lock_prolongation,
}
use node_cqrs.Sqlite.ViewLocker.Sharing.{row_of, fresh_row, set_lock-written, try_lock-acquired}

abbrev pub IsFree : Option ViewRow → Type 0
IsFree found = (r : ViewRow) → found ≡ some r → r.locked_till ≡ none

relocked-free : (till : Option ℕ) (r : ViewRow) → r.locked_till ≡ none → relocked till r ≡ none
unfolding relocked
relocked-free till r h = rw h refl

relocked-none : (r new : ViewRow) → relocked none r ≡ some new → new.locked_till ≡ none
unfolding relocked
relocked-none r new h = ground arith

relocked-held : (till : Option ℕ) (r : ViewRow) → relocked till r ≡ none → r.locked_till ≡ none
unfolding relocked
relocked-held till r h = ground arith

found-none :
    (found : Option ViewRow) (new : ViewRow)
    → on_found (relocked none) found ≡ some new
    → new.locked_till ≡ none
unfolding on_found
found-none none new h = absurd (cc h)
found-none (some r) new h = relocked-none r new h

found-IsFree : (found : Option ViewRow) → on_found (relocked none) found ≡ none → IsFree found
unfolding on_found
found-IsFree none h r is = absurd (cc is)
found-IsFree (some s) h r is = relocked-held none r (ap (on_found (relocked none)) (sym is) ∙ h)

IsFree-relocked :
    (till : Option ℕ) (found : Option ViewRow)
    → IsFree found
    → on_found (relocked till) found ≡ none
unfolding on_found
IsFree-relocked till none free = refl
IsFree-relocked till (some r) free = relocked-free till r (free r refl)

taken_over-free :
    (till : ℕ) (r : ViewRow)
    → r.locked_till ≡ none
    → taken_over till r ≡ some (record r { locked_till = some till })
unfolding taken_over
taken_over-free till r h = rw h refl

IsFree-attempted :
    (fresh : ViewRow) (till : ℕ) (found : Option ViewRow)
    → IsFree found
    → (r : ViewRow) × (on_conflict fresh (taken_over till) found ≡ some r)
unfolding on_conflict
IsFree-attempted fresh till none free = (fresh, refl)
IsFree-attempted fresh till (some r) free = (_, taken_over-free till r (free r refl))

module _ (o : Settings) where
  set_lock-IsFree : (db : Database) → IsFree (row_of o (set_lock o none db).1)
  set_lock-IsFree db = elim (Option-cases (on_found (relocked none) (row_of o db))) [
    | inl unheld ↦ λ r is. found-IsFree (row_of o db) unheld r (
        ap (λ (q : ℕ × Database). row_of o q.1) (sym (set_lock-written o db none none unheld)) ∙ is)
    | inr (new, held) ↦ λ r is.
        let wrote : row_of o (set_lock o none db).1 ≡ some new =
          ap (λ (q : ℕ × Database). row_of o q.1) (set_lock-written o db none (some new) held)
          ∙ find-put_self o.view new db.view_locks in
        ground (arith, found-none (row_of o db) new held)
  ]

  prolong_lock-unwritten :
      (w : World) (db : Database)
      → set_lock o (some (w.db.now + o.view_lock_ttl)) w.db ≡ (0, db)
      → (prolong_lock o w).0 ≡ err plain_error
  unfolding prolong_lock
  prolong_lock-unwritten w db h = rw h refl

  unlock-db : (w : World) → (unlock o w).db ≡ (set_lock o none w.db).1
  unfolding unlock
  unlock-db w = refl

  unlock-IsFree : (w : World) → IsFree (row_of o (unlock o w).db)
  unlock-IsFree w =
      subst (λ (db : Database). IsFree (row_of o db)) (sym (unlock-db w)) (set_lock-IsFree w.db)

  unlock-ready : (w : World) → ready (unlock o w) ≡ true
  unfolding unlock ready cancel_lock_prolongation
  unlock-ready w = refl

  -- `unlock` frees the view, whoever holds it: after it the view is ready here, an attempt to lock it succeeds, and
  -- to prolong a lock on it fails, for the locker that called and for any other.
  pub unlock_lem :
      (w other : World)
      → (ready (unlock o w) ≡ true)
        × ((try_lock o (unlock o w).db).0 ≡ true)
        × ((prolong_lock o (record other { db = (unlock o w).db })).0 ≡ err plain_error)
  unlock_lem w other =
      let free = unlock-IsFree w in
      let db = (unlock o w).db in
      let till = db.now + o.view_lock_ttl in
      let (r, obtained) = IsFree-attempted (fresh_row o db) till (row_of o db) free in
      (
        unlock-ready w,
        ap (λ (q : Bool × Database). q.0) (try_lock-acquired o db (some r) obtained),
        prolong_lock-unwritten (record other { db = db }) db
            (set_lock-written o db (some till) none
              (IsFree-relocked (some till) (row_of o db) free)),
      )
