-- ===== src/Sqlite/EventStorage/Queries.antt =====
-- What src/sqlite/SqliteEventStorage.ts reads: the streams of an aggregate and of a saga, the events of some types, and
-- `process`, the step of the dispatch pipeline. A generator is the list of what it yields.
use node_cqrs.Common.{
  ℕ, true, ◌&&◌, ◌||◌, Option, none, some, Text, text_eq, ltb, leb, Bool, List, [], ◌∷◌, lookup,
  passes, map, present, or_else,
}
use node_cqrs.Common.Lists.{filter, any, last?}
use node_cqrs.Messages.{
  Event, Envelope, Batch, Result, ok, err, type_error, plain_error, guard, ◌>>=◌, ◌>>◌,
}
use node_cqrs.InMemory.EventStorage.{Query, includes}
use node_cqrs.Utils.SagaId.{parse_saga_id}
use node_cqrs.Sqlite.EventStorage.{
  EventRow, SagaRefRow, Tables, Codec, find_row, reconstruct_event, commit_events, has_row_id,
}

-- `aggregate_id = @aggregateId AND (@afterVersion IS NULL OR aggregate_version > @afterVersion)`
unfoldable pub of_aggregate_after : Text → Option ℕ → EventRow → Bool
of_aggregate_after id none r = passes (λ i. text_eq i id) r.aggregate_id
of_aggregate_after id (some after) r =
    passes (λ i. text_eq i id) r.aggregate_id && passes (λ v. ltb after v) r.aggregate_version

-- `@eventTypes IS NULL OR e.type IN (…) OR (@tail = 'last' AND e.id = tail.tail_id)`
unfoldable pub of_types_or_tail : Query → EventRow → EventRow → Bool
of_types_or_tail q tail r = elim q.event_types [
  | none ↦ true
  | some types ↦ includes types r.type || (q.tail_last && has_row_id tail.id r)
]

-- The join with the common table expression `tail`, which has one row or none.
abbrev pub joined : Query → List EventRow → Option EventRow → List EventRow
joined q all none = []
joined q all (some tail) = filter (of_types_or_tail q tail) all

unfoldable pub aggregate_rows : Text → Query → List EventRow → List EventRow
aggregate_rows id q rows =
    let all = filter (of_aggregate_after id q.after_version) rows in joined q all (last? all)

-- `LEFT JOIN tbl_event_sagas sr …`: the row has a reference to the saga.
unfoldable pub refers : List SagaRefRow → Text → Text → EventRow → Bool
refers refs descriptor origin r =
    any
      (λ ref.
        text_eq ref.event_id r.id
        && text_eq ref.saga_descriptor descriptor
        && text_eq ref.origin_id origin)
      refs

-- `WHERE e.rowid >= @originRowid AND e.rowid < @beforeRowid AND (e.id = @originId OR sr.event_id IS NOT NULL)`
unfoldable pub of_saga : List SagaRefRow → Text → Text → ℕ → ℕ → EventRow → Bool
of_saga refs descriptor origin origin_rowid before_rowid r =
    leb origin_rowid r.rowid
    && ltb r.rowid before_rowid
    && (has_row_id origin r || refers refs descriptor origin r)

unfoldable pub row_or_missing : Option EventRow → Result EventRow
row_or_missing none = err plain_error
row_or_missing (some r) = ok r

module _ {A : Type 0} (c : Codec A) where
  abbrev pub reconstructed : Tables → List EventRow → List (Event A)
  reconstructed t rows = map (reconstruct_event c t.tbl_event_sagas) rows

  unfoldable pub get_aggregate_events : Text → Query → Tables → List (Event A)
  get_aggregate_events id q t = reconstructed t (aggregate_rows (c.guid id) q t.tbl_events)

  unfoldable pub get_saga_events : Text → Event A → Tables → Result (List (Event A))
  unfolding row_or_missing
  get_saga_events saga_id before t = do
    guard (present before.id) type_error
    parts ← parse_saga_id saga_id
    guard
        (passes (λ origins. passes (λ o. text_eq o parts.1) (lookup parts.0 origins))
          before.saga_origins)
        type_error
    origin_row ← row_or_missing (find_row (c.guid parts.1) t.tbl_events)
    before_row ← row_or_missing (find_row (c.guid (or_else before.id [])) t.tbl_events)
    ok (
        reconstructed t (
          filter
            (of_saga t.tbl_event_sagas parts.0 (c.guid parts.1) origin_row.rowid before_row.rowid)
            t.tbl_events))

  abbrev pub rows_after : List Text → ℕ → Tables → List (Event A)
  rows_after types after t =
      reconstructed t
        (filter (λ r. includes types r.type) (filter (λ r. ltb after r.rowid) t.tbl_events))

  -- An event that is not there ends the stream at once.
  abbrev pub after_found : List Text → Option EventRow → Tables → List (Event A)
  after_found types none t = []
  after_found types (some r) t = rows_after types r.rowid t

  unfoldable pub get_events_by_types :
      List Text → Option (Event A) → Tables → Result (List (Event A))
  get_events_by_types types none t = ok (rows_after types 0 t)
  get_events_by_types types (some after) t = do
    guard (present after.id) type_error
    ok (after_found types (find_row (c.guid (or_else after.id [])) t.tbl_events) t)

  -- `extractMeta` of the first item: the fields but `event` and `ignoreConcurrencyError`
  abbrev pub extract_meta : Envelope A → Option Text
  extract_meta item = elim item.origin [ none ↦ none | some origin ↦ some (c.origin_json origin) ]

  batch_events : Batch A → Result (List (Event A))
  batch_events [] = ok []
  batch_events (item ∷ batch) = do
    event ← elim item.event [ none ↦ err plain_error | some e ↦ ok e ]
    events ← batch_events batch
    ok (event ∷ events)

  -- `extractMeta(batch[0])` throws on an empty batch.
  commit_batch : Batch A → List (Event A) → Tables → Result (List (Event A)) × Tables
  commit_batch [] es t = (err type_error, t)
  commit_batch (item ∷ batch) es t =
      commit_events c es item.ignore_concurrency_error (extract_meta item) t

  committed_batch : Batch A → Result (List (Event A)) → Tables → Result (Batch A) × Tables
  unfolding commit_batch
  committed_batch batch (err e) t = (err e, t)
  committed_batch batch (ok es) t =
      let (r, after) = commit_batch batch es t in (r >>= (λ done. ok batch), after)

  unfoldable pub process : Batch A → Tables → Result (Batch A) × Tables
  unfolding batch_events committed_batch
  process batch t = committed_batch batch (batch_events batch) t
