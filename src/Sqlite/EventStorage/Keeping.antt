-- ===== src/Sqlite/EventStorage/Keeping.antt =====
-- A commit of src/sqlite/SqliteEventStorage.ts as a whole: what holds of the tables after it, and what it does
-- when it throws.
use node_cqrs.Common.{
  ◌≡◌, ◌≢◌, refl, sym, ap, ◌∙◌, subst, true, false, not, Option, some, Text, present, Bool-cases,
  inl, inr, List, [], ◌∷◌, ◌++◌, arith, or_else, Assoc,
}
use node_cqrs.Common.Lists.{any, All, All-append}
use node_cqrs.Messages.{Event, Result, ok, err, Error, concurrency_error, type_error, guard}
use node_cqrs.Sqlite.EventStorage.{
  SagaRefRow, Tables, Codec, conflicts, insert_event, insert_saga_ref, insert_saga_refs,
  commit_event, commit_each, commit_events, transaction, same_ref,
}
use node_cqrs.Sqlite.EventStorage.Committing.{
  bind_ok, guard_ok, IsStored, IsWellFormed, insert_event-IsWellFormed,
}

ok_tables : Tables → Result Tables → Tables
ok_tables t (ok u) = u
ok_tables t (err x) = t

insert_saga_ref_ok :
    (ref : SagaRefRow) (t u : Tables)
    → insert_saga_ref ref t ≡ ok u
    → record t { tbl_event_sagas = t.tbl_event_sagas ++ ref ∷ [] } ≡ u
unfolding insert_saga_ref ok_tables
insert_saga_ref_ok ref t u h = elim (Bool-cases (any (same_ref ref) t.tbl_event_sagas)) [
  | inl there ↦ absurd (cc (taken there, h))
  | inr absent ↦ ap (ok_tables t) (sym (stored absent) ∙ h)
]
  where
    taken :
        any (same_ref ref) t.tbl_event_sagas ≡ true → insert_saga_ref ref t ≡ err (Error.thrown 19)
    taken there = rw there refl

    stored :
        any (same_ref ref) t.tbl_event_sagas ≡ false
        → insert_saga_ref ref t ≡ ok (record t { tbl_event_sagas = t.tbl_event_sagas ++ ref ∷ [] })
    stored absent = rw absent refl

insert_saga_ref-IsWellFormed :
    (ref : SagaRefRow) (t u : Tables)
    → insert_saga_ref ref t ≡ ok u
    → IsStored t.tbl_events ref.event_id
    → IsWellFormed t
    → IsWellFormed u × (t.tbl_events ≡ u.tbl_events)
insert_saga_ref-IsWellFormed ref t u h stored wf =
    subst (λ v. IsWellFormed v × (t.tbl_events ≡ v.tbl_events)) (insert_saga_ref_ok ref t u h)
      (
        record {
          apart = wf.apart;
          numbered = wf.numbered;
          referred =
              All-append (λ r. IsStored t.tbl_events r.event_id) t.tbl_event_sagas (ref ∷ [])
                wf.referred (stored, tt);
        },
        refl,
      )

module _ {A : Type 0} (c : Codec A) where
  insert_saga_refs-IsWellFormed :
      (id : Text) (origins : Assoc Text) (t u : Tables)
      → insert_saga_refs c id origins t ≡ ok u
      → IsStored t.tbl_events (c.guid id)
      → IsWellFormed t
      → IsWellFormed u
  unfolding insert_saga_refs ok_tables
  insert_saga_refs-IsWellFormed id [] t u h stored wf = subst IsWellFormed (ap (ok_tables t) h) wf
  insert_saga_refs-IsWellFormed id ((descriptor, origin) ∷ origins) t u h stored wf =
      let (v, one, rest) = bind_ok _ (insert_saga_refs c id origins) u h in
      let (wf_v, same) = insert_saga_ref-IsWellFormed _ t v one stored wf in
      insert_saga_refs-IsWellFormed id origins v u rest
        (subst (λ rows. IsStored rows (c.guid id)) same stored) wf_v

  commit_event-IsWellFormed :
      (meta : Option Text) (e : Event A) (t u : Tables)
      → commit_event c false meta e t ≡ ok u
      → e.aggregate_id ≢ some []
      → IsWellFormed t
      → IsWellFormed u
  unfolding commit_event
  commit_event-IsWellFormed meta e t u h named wf =
      let (d, free, h1) =
        bind_ok (guard (not (conflicts c e t.tbl_events)) concurrency_error) _ u h in
      let (d2, has_id, h2) = bind_ok (guard (present e.id) type_error) _ u h1 in
      let (v, inserted, h3) = bind_ok (insert_event c (or_else e.id []) meta e t) _ u h2 in
      let unconflicted = guard_ok (not (conflicts c e t.tbl_events)) concurrency_error d free in
      let (wf_v, stored) =
        insert_event-IsWellFormed c (or_else e.id []) meta e t v (ground arith) named inserted wf in
      insert_saga_refs-IsWellFormed (or_else e.id []) (or_else e.saga_origins []) v u h3 stored wf_v

  commit_each-IsWellFormed :
      (meta : Option Text) (es : List (Event A)) (t u : Tables)
      → commit_each c false meta es t ≡ ok u
      → All (λ e. e.aggregate_id ≢ some []) es
      → IsWellFormed t
      → IsWellFormed u
  unfolding commit_each ok_tables
  commit_each-IsWellFormed meta [] t u h named wf = subst IsWellFormed (ap (ok_tables t) h) wf
  commit_each-IsWellFormed meta (e ∷ es) t u h named wf =
      let (v, one, rest) =
        bind_ok (commit_event c false meta e t) (commit_each c false meta es) u h in
      commit_each-IsWellFormed meta es v u rest named.1
        (commit_event-IsWellFormed meta e t v one named.0 wf)

  transaction-IsWellFormed :
      (meta : Option Text) (es : List (Event A)) (t : Tables) (r : Result Tables)
      → commit_each c false meta es t ≡ r
      → All (λ e. e.aggregate_id ≢ some []) es
      → IsWellFormed t
      → IsWellFormed (transaction r t).1
  transaction-IsWellFormed meta es t (ok u) h named wf =
      commit_each-IsWellFormed meta es t u h named wf
  transaction-IsWellFormed meta es t (err x) h named wf = wf

  -- The database stays in order through every commit: no two events have one identifier, no two events are of one aggregate at
  -- one version, not even if one batch brings both, the rows are numbered from 1 on, and each saga reference
  -- names a stored event. This holds of the tables after a commit, whether it returns or throws, if it holds before, conflicts
  -- are not ignored and no event has an empty aggregate identifier.
  pub commit_events-IsWellFormed :
      (meta : Option Text) (es : List (Event A)) (t : Tables)
      → All (λ e. e.aggregate_id ≢ some []) es
      → IsWellFormed t
      → IsWellFormed (commit_events c es false meta t).1
  unfolding commit_events
  commit_events-IsWellFormed meta es t named wf =
      transaction-IsWellFormed meta es t (commit_each c false meta es t) refl named wf
