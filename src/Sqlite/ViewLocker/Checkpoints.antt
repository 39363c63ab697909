-- ===== src/Sqlite/ViewLocker/Checkpoints.antt =====
-- The lock of a view and the last event that it has seen stand in one row: src/sqlite/SqliteViewLocker.ts
-- writes the one, src/sqlite/SqliteEventLocker.ts the other.
use node_cqrs.Common.{
  ◌≡◌, refl, ap, ◌∙◌, ℕ, ◌+◌, Option, none, some, ◌==◌, Bool-cases, arith, Option-cases, inl, inr,
  Text,
}
use node_cqrs.Common.Tables.{Table, find, put, on_conflict, on_found, find-put}
use node_cqrs.Messages.{ok}
use node_cqrs.Sqlite.Tables.{Node, ViewKey, view_key, same_view_iff, ViewRow, Database}
use node_cqrs.Sqlite.EventLocker.{get_last_event, mark_as_last_event, with_last_event}
use node_cqrs.Sqlite.EventLocker as EventLocker
use node_cqrs.Sqlite.ViewLocker.{
  Settings, World, taken_over, relocked, try_lock, set_lock, prolong_lock, unlock,
}
use node_cqrs.Sqlite.ViewLocker.Sharing.{row_of, fresh_row, set_lock-written, try_lock-acquired}

module _ {A : Type 0} (node : Node A) where
  -- The checkpoint that a row holds; a row that is not there holds none.
  abbrev pub json_of : Option ViewRow → Option Text
  json_of none = none
  json_of (some r) = r.last_event

  last_of-json :
      (p q : Option ViewRow)
      → json_of p ≡ json_of q
      → EventLocker.last_of node p ≡ EventLocker.last_of node q
  unfolding EventLocker.last_of EventLocker.parse_last
  last_of-json none none h = refl
  last_of-json none (some r) h = ap (EventLocker.parse_last node) h
  last_of-json (some r) none h = ap (EventLocker.parse_last node) h
  last_of-json (some r) (some s) h = ap (EventLocker.parse_last node) h

  json_of-put :
      (k j : ViewKey) (r : ViewRow) (t : Table ViewKey ViewRow)
      → r.last_event ≡ json_of (find k t)
      → json_of (find j (put k r t)) ≡ json_of (find j t)
  json_of-put k j r t same = elim (Bool-cases (view_key.same k j)) [
    | inl e ↦
        let is : k ≡ j = (same_view_iff k j).0 e in
        rw (find-put k j r t, e) (same ∙ ap (λ (i : ViewKey). json_of (find i t)) is)
    | inr e ↦ rw (find-put k j r t, e) refl
  ]

  taken_over-json :
      (till : ℕ) (r new : ViewRow) → taken_over till r ≡ some new → new.last_event ≡ r.last_event
  unfolding taken_over
  taken_over-json till r new h = ground arith

  relocked-json :
      (till : Option ℕ) (r new : ViewRow)
      → relocked till r ≡ some new
      → new.last_event ≡ r.last_event
  unfolding relocked
  relocked-json till r new h = ground arith

  attempted-json :
      (db : Database) (found : Option ViewRow) (till : ℕ) (new : ViewRow)
      → on_conflict (record { locked_till = some till; last_event = none }) (taken_over till) found
        ≡ some new
      → new.last_event ≡ json_of found
  unfolding on_conflict
  attempted-json db none till new h = ground arith
  attempted-json db (some r) till new h = taken_over-json till r new h

  found-json :
      (till : Option ℕ) (found : Option ViewRow) (new : ViewRow)
      → on_found (relocked till) found ≡ some new
      → new.last_event ≡ json_of found
  unfolding on_found
  found-json till none new h = absurd (cc h)
  found-json till (some r) new h = relocked-json till r new h

  module _ (o : Settings) (j : ViewKey) where
    try_lock-json :
        (db : Database)
        → json_of (find j (try_lock o db).1.view_locks) ≡ json_of (find j db.view_locks)
    try_lock-json db =
        let till = db.now + o.view_lock_ttl in
        elim (Option-cases (on_conflict (fresh_row o db) (taken_over till) (row_of o db))) [
          | inl refused ↦ rw (try_lock-acquired o db none refused) refl
          | inr (new, obtained) ↦ rw (try_lock-acquired o db (some new) obtained) (
              json_of-put o.view j new db.view_locks
                (attempted-json db (row_of o db) till new obtained))
        ]

    set_lock-json :
        (till : Option ℕ) (db : Database)
        → json_of (find j (set_lock o till db).1.view_locks) ≡ json_of (find j db.view_locks)
    set_lock-json till db = elim (Option-cases (on_found (relocked till) (row_of o db))) [
      | inl unheld ↦ rw (set_lock-written o db till none unheld) refl
      | inr (new, held) ↦
          rw (set_lock-written o db till (some new) held)
            (json_of-put o.view j new db.view_locks (found-json till (row_of o db) new held))
    ]

  last_event-json :
      (oe : EventLocker.Settings) (db after : Database)
      → json_of (find oe.view after.view_locks) ≡ json_of (find oe.view db.view_locks)
      → (get_last_event node oe after).0 ≡ (get_last_event node oe db).0
  unfolding get_last_event
  last_event-json oe db after same =
      ap ok (last_of-json (find oe.view after.view_locks) (find oe.view db.view_locks) same)

  prolong_lock-json :
      (o : Settings) (w : World)
      → (prolong_lock o w).1.db ≡ (set_lock o (some (w.db.now + o.view_lock_ttl)) w.db).1
  unfolding prolong_lock
  prolong_lock-json o w =
      elim (Bool-cases ((set_lock o (some (w.db.now + o.view_lock_ttl)) w.db).0 == 1)) [
        | inl e ↦ rw e refl
        | inr e ↦ rw e refl
      ]

  unlock-json : (o : Settings) (w : World) → (unlock o w).db ≡ (set_lock o none w.db).1
  unfolding unlock
  unlock-json o w = refl

  -- A lock never costs a projection its checkpoint: to try to lock a view, to prolong the lock and to unlock the
  -- view leave what `getLastEvent` answers, for this view and for any other, though lock and checkpoint share a row.
  pub get_last_event-locks :
      (oe : EventLocker.Settings) (o : Settings) (w : World)
      → ((get_last_event node oe (try_lock o w.db).1).0 ≡ (get_last_event node oe w.db).0)
        × ((get_last_event node oe (prolong_lock o w).1.db).0 ≡ (get_last_event node oe w.db).0)
        × ((get_last_event node oe (unlock o w).db).0 ≡ (get_last_event node oe w.db).0)
  get_last_event-locks oe o w =
      let till = some (w.db.now + o.view_lock_ttl) in
      (
        last_event-json oe w.db _ (try_lock-json o oe.view w.db),
        ap (λ db. (get_last_event node oe db).0) (prolong_lock-json o w)
            ∙ last_event-json oe w.db _ (set_lock-json o oe.view till w.db),
        ap (λ db. (get_last_event node oe db).0) (unlock-json o w)
            ∙ last_event-json oe w.db _ (set_lock-json o oe.view none w.db),
      )
