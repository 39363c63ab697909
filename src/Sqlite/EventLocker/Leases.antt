-- ===== src/Sqlite/EventLocker/Leases.antt =====
-- How long SqliteEventLocker reserves an event for the worker that obtained it. Workers, whether of one
-- process or of several, meet in the database only: an attempt of any of them is a call at a later time.
use node_cqrs.Common.{
  ◌≡◌, sym, ap, ◌∙◌, ℕ, ◌+◌, ◌≤◌, ◌<◌, true, false, Option, none, some, Bool, arith, Option-cases,
  inl, inr, List, [], ◌∷◌, ◌++◌, append-nil,
}
use node_cqrs.Common.Tables.{on_conflict, find-put_self}
use node_cqrs.Messages.{Event, Result, ok}
use node_cqrs.Sqlite.Tables.{Node, event_key, EventRow, Database}
use node_cqrs.Sqlite.EventLocker.{Settings, event_key_of, expired_lock, try_mark_as_projecting}
use node_cqrs.Sqlite.EventLocker.Outcomes.{row_of, attempted, try_mark_as_projecting-granted}

-- The database some milliseconds later, with nothing written.
abbrev pub later : ℕ → Database → Database
later d db = record db { now = db.now + d }

abbrev pub total : List ℕ → ℕ
total [] = 0
total (d ∷ ds) = d + total ds

module _ {A : Type 0} (node : Node A) (o : Settings) where
  -- Each worker waits for some milliseconds and tries to obtain the event; the answers in order.
  unfoldable pub attempts : Event A → List ℕ → Database → List (Result Bool)
  attempts e [] db = []
  attempts e (d ∷ ds) db =
      let tried = try_mark_as_projecting node o e (later d db) in tried.0 ∷ attempts e ds tried.1

  unfoldable pub refusals : List ℕ → List (Result Bool)
  refusals [] = []
  refusals (d ∷ ds) = ok false ∷ refusals ds

  -- The event was obtained at the time `since`, and is not processed yet.
  abbrev pub IsLeased : ℕ → Event A → Database → Type 0
  IsLeased since e db =
      (r : EventRow) × (row_of node o e db ≡ some r)
      × (r.processing_at ≡ since)
      × (r.processed_at ≡ none)

  expired_lock-lem :
      (now : ℕ) (r new : EventRow)
      → expired_lock o.event_lock_ttl now r ≡ some new
      → (new.processing_at ≡ now) × (new.processed_at ≡ none)
  unfolding expired_lock
  expired_lock-lem now r new h = ground arith

  attempted-lem :
      (now : ℕ) (found : Option EventRow) (new : EventRow)
      → on_conflict
          (record { processing_at = now; processed_at = none })
          (expired_lock o.event_lock_ttl now)
          found
        ≡ some new
      → (new.processing_at ≡ now) × (new.processed_at ≡ none)
  unfolding on_conflict
  attempted-lem now none new h = ground arith
  attempted-lem now (some r) new h = expired_lock-lem now r new h

  obtained-IsLeased :
      (e : Event A) (db after : Database)
      → try_mark_as_projecting node o e db ≡ (ok true, after)
      → IsLeased db.now e after × (after.now ≡ db.now)
  obtained-IsLeased e db after h = elim (Option-cases (attempted node o e db)) [
    | inl none_left ↦ absurd (cc (try_mark_as_projecting-granted node o e db none none_left, h))
    | inr (r, found) ↦
        let p = sym (try_mark_as_projecting-granted node o e db (some r) found) ∙ h in
        let (at, unprocessed) = attempted-lem db.now (row_of node o e db) r found in
        (
          (
            r,
            ap (λ (q : Result Bool × Database). row_of node o e q.1) (sym p)
                ∙ find-put_self (event_key_of node o e) r db.event_locks,
            at,
            unprocessed,
          ),
          ap (λ (q : Result Bool × Database). q.1.now) (sym p),
        )
  ]

  expired_lock-fresh :
      (now since : ℕ) (r : EventRow)
      → r.processing_at ≡ since
      → now < since + o.event_lock_ttl
      → expired_lock o.event_lock_ttl now r ≡ none
  unfolding expired_lock
  expired_lock-fresh now since r at fresh = ground arith

  expired_lock-stale :
      (now since : ℕ) (r : EventRow)
      → r.processing_at ≡ since
      → r.processed_at ≡ none
      → since + o.event_lock_ttl ≤ now
      → expired_lock o.event_lock_ttl now r ≡ some (record r { processing_at = now })
  unfolding expired_lock
  expired_lock-stale now since r at unprocessed stale = ground arith

  leased-refused :
      (since : ℕ) (e : Event A) (db : Database)
      → IsLeased since e db
      → db.now < since + o.event_lock_ttl
      → try_mark_as_projecting node o e db ≡ (ok false, db)
  unfolding on_conflict
  leased-refused since e db (r, there, at, unprocessed) fresh =
      try_mark_as_projecting-granted node o e db none (
        ap (on_conflict _ (expired_lock o.event_lock_ttl db.now)) there
        ∙ expired_lock-fresh db.now since r at fresh)

  later-later : (d n : ℕ) (db : Database) → later n (later d db) ≡ later (d + n) db
  later-later d n db = ap (λ (t : ℕ). record db { now = t }) (omega arith)

  later-zero : (db : Database) → db ≡ later 0 db
  later-zero db = ap (λ (t : ℕ). record db { now = t }) (omega arith)

  leased-attempts :
      (since : ℕ) (e : Event A) (ds rest : List ℕ) (db : Database)
      → IsLeased since e db
      → db.now + total ds < since + o.event_lock_ttl
      → attempts e (ds ++ rest) db ≡ refusals ds ++ attempts e rest (later (total ds) db)
  unfolding attempts refusals
  leased-attempts since e [] rest db leased fresh = ap (attempts e rest) (later-zero db)
  leased-attempts since e (d ∷ ds) rest db leased fresh =
      ap (λ (q : Result Bool × Database). q.0 ∷ attempts e (ds ++ rest) q.1)
        (leased-refused since e (later d db) leased (omega arith))
      ∙ ap (λ more. ok false ∷ more)
          (leased-attempts since e ds rest (later d db) leased (omega arith)
            ∙ ap (λ at. refusals ds ++ attempts e rest at) (later-later d (total ds) db))

  -- While an event is reserved nobody else gets it: if a worker obtained the event, then whatever number of attempts
  -- follow within less than `eventLockTtl` milliseconds, each of them is refused.
  pub attempts-obtained :
      (e : Event A) (db after : Database) (ds : List ℕ)
      → try_mark_as_projecting node o e db ≡ (ok true, after)
      → total ds < o.event_lock_ttl
      → attempts e ds after ≡ refusals ds
  unfolding attempts
  attempts-obtained e db after ds h fresh =
      let (leased, same) = obtained-IsLeased e db after h in
      ap (λ l. attempts e l after) (sym (append-nil ds))
      ∙ (leased-attempts db.now e ds [] after leased (omega (arith, same))
          ∙ append-nil (refusals ds))

  stale-obtained :
      (since : ℕ) (e : Event A) (db : Database)
      → IsLeased since e db
      → since + o.event_lock_ttl ≤ db.now
      → (try_mark_as_projecting node o e db).0 ≡ ok true
  unfolding on_conflict
  stale-obtained since e db (r, there, at, unprocessed) stale =
      ap (λ (q : Result Bool × Database). q.0)
        (try_mark_as_projecting-granted node o e db _ (
          ap (on_conflict _ (expired_lock o.event_lock_ttl db.now)) there
          ∙ expired_lock-stale db.now since r at unprocessed stale))

  -- An event is never stuck: if a worker obtained the event and does not mark it as projected, whatever attempts are refused
  -- within less than `eventLockTtl` milliseconds, the first attempt that comes `eventLockTtl` milliseconds or more
  -- after the event was obtained gets it.
  pub attempts-expired :
      (e : Event A) (db after : Database) (ds : List ℕ) (d : ℕ)
      → try_mark_as_projecting node o e db ≡ (ok true, after)
      → total ds < o.event_lock_ttl
      → o.event_lock_ttl ≤ total ds + d
      → attempts e (ds ++ d ∷ []) after ≡ refusals ds ++ ok true ∷ []
  unfolding attempts
  attempts-expired e db after ds d h fresh stale =
      let (leased, same) = obtained-IsLeased e db after h in
      leased-attempts db.now e ds (d ∷ []) after leased (omega (arith, same))
      ∙ ap (λ (answer : Result Bool). refusals ds ++ answer ∷ [])
          (stale-obtained db.now e (later d (later (total ds) after)) leased (omega (arith, same)))
