-- ===== src/Sqlite/EventLocker/Lasting.antt =====
-- What other workers do to the tables of src/sqlite/SqliteEventLocker.ts and src/sqlite/SqliteViewLocker.ts, and an event that is processed.
use node_cqrs.Common.{
  ◌≡◌, refl, ap, ◌∙◌, ℕ, Option, none, some, List, [], ◌∷◌, Bool-cases, inl, inr,
}
use node_cqrs.Common.Tables.{Table, find, changed, upsert, on_conflict, on_found, find-put}
use node_cqrs.Messages.{Event, Result}
use node_cqrs.Sqlite.Tables.{Node, EventKey, event_key, view_key, EventRow, Database}
use node_cqrs.Sqlite.EventLocker.{
  Settings, event_key_of, expired_lock, finalized_lock, lock_event, try_mark_as_projecting,
  mark_as_projected, mark_as_last_event,
}
use node_cqrs.Sqlite.EventLocker.Leases.{later}
use node_cqrs.Sqlite.EventLocker.Outcomes.{finalized, mark_as_projected-confirmed}
use node_cqrs.Sqlite.EventLocker.Projecting.{IsProcessed, expired_lock-processed}
use node_cqrs.Sqlite.ViewLocker as ViewLocker
use node_cqrs.Sqlite.ViewLocker.{try_lock, set_lock}

-- A statement of a worker, of the same projection or of another one, or the passing of time.
pub data Act (A : Type 0) : Type 0 where
  pause : ℕ → Act A
  obtain complete checkpoint : Settings → Event A → Act A
  take : ViewLocker.Settings → Act A
  set_till : ViewLocker.Settings → Option ℕ → Act A

module _ {A : Type 0} (node : Node A) where
  unfoldable pub act : Act A → Database → Database
  act (pause d) db = later d db
  act (obtain o e) db = (try_mark_as_projecting node o e db).1
  act (complete o e) db = (mark_as_projected node o e db).1
  act (checkpoint o e) db = (mark_as_last_event node o e db).1
  act (take o) db = (try_lock o db).1
  act (set_till o till) db = (set_lock o till db).1

  unfoldable pub act_all : List (Act A) → Database → Database
  act_all [] db = db
  act_all (a ∷ acts) db = act_all acts (act a db)

changed-keeps :
    (k j : EventKey) (r : EventRow) (t : Table EventKey EventRow) (n : Option EventRow)
    → find k t ≡ some r
    → (j ≡ k → n ≡ none)
    → find k (changed j t n).1 ≡ some r
unfolding changed
changed-keeps k j r t none there other = there
changed-keeps k j r t (some s) there other = elim (Bool-cases (event_key.same j k)) [
  | inl e ↦ absurd (cc (other ((event_key.same_iff j k).0 e)))
  | inr e ↦ rw (find-put j k s t, e) there
]

module _ {A : Type 0} (node : Node A) (o : Settings) (e : Event A) where
  obtain-IsProcessed :
      (o' : Settings) (e' : Event A) (db : Database)
      → IsProcessed node o e db
      → IsProcessed node o e (try_mark_as_projecting node o' e' db).1
  unfolding try_mark_as_projecting lock_event upsert on_conflict
  obtain-IsProcessed o' e' db (r, t, there, at) =
      let k = event_key_of node o e in
      let j = event_key_of node o' e' in
      let fresh : EventRow = record { processing_at = db.now; processed_at = none } in
      (
        r,
        t,
        changed-keeps k j r db.event_locks _ there (λ same.
            ap
              (λ i.
                on_conflict fresh (expired_lock o'.event_lock_ttl db.now) (find i db.event_locks))
              same
            ∙ ap (on_conflict fresh (expired_lock o'.event_lock_ttl db.now)) there
            ∙ expired_lock-processed o'.event_lock_ttl db.now t r at),
        at,
      )

  finalized_lock-none :
      (now t : ℕ) (r : EventRow) → r.processed_at ≡ some t → finalized_lock now r ≡ none
  unfolding finalized_lock
  finalized_lock-none now t r h = rw h refl

  completed_locks :
      (o' : Settings) (e' : Event A) (db : Database) (n : Option EventRow)
      → finalized node o' e' db ≡ n
      → (mark_as_projected node o' e' db).1.event_locks
        ≡ (changed (event_key_of node o' e') db.event_locks n).1
  unfolding changed
  completed_locks o' e' db none h =
      ap (λ (q : Result (Unit {0}) × Database). q.1.event_locks)
        (mark_as_projected-confirmed node o' e' db none h)
  completed_locks o' e' db (some r) h =
      ap (λ (q : Result (Unit {0}) × Database). q.1.event_locks)
        (mark_as_projected-confirmed node o' e' db (some r) h)

  complete-IsProcessed :
      (o' : Settings) (e' : Event A) (db : Database)
      → IsProcessed node o e db
      → IsProcessed node o e (mark_as_projected node o' e' db).1
  unfolding on_found
  complete-IsProcessed o' e' db (r, t, there, at) =
      let k = event_key_of node o e in
      let j = event_key_of node o' e' in
      let n = finalized node o' e' db in
      (
        r,
        t,
        ap (find k) (completed_locks o' e' db n refl)
            ∙ changed-keeps k j r db.event_locks n there (λ same.
              ap (λ i. on_found (finalized_lock db.now) (find i db.event_locks)) same
              ∙ ap (on_found (finalized_lock db.now)) there
              ∙ finalized_lock-none db.now t r at),
        at,
      )

  act-IsProcessed :
      (a : Act A) (db : Database) → IsProcessed node o e db → IsProcessed node o e (act node a db)
  unfolding act mark_as_last_event try_lock set_lock
  act-IsProcessed (pause d) db h = h
  act-IsProcessed (obtain o' e') db h = obtain-IsProcessed o' e' db h
  act-IsProcessed (complete o' e') db h = complete-IsProcessed o' e' db h
  act-IsProcessed (checkpoint o' e') db h = h
  act-IsProcessed (take o') db h = h
  act-IsProcessed (set_till o' till) db h = h

  -- Nothing that the lockers do makes a processed event unprocessed.
  pub act_all-IsProcessed :
      (acts : List (Act A)) (db : Database)
      → IsProcessed node o e db
      → IsProcessed node o e (act_all node acts db)
  unfolding act_all
  act_all-IsProcessed [] db h = h
  act_all-IsProcessed (a ∷ acts) db h =
      act_all-IsProcessed acts (act node a db) (act-IsProcessed a db h)
