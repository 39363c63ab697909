-- ===== src/Sqlite/EventStorage.antt =====
-- src/sqlite/SqliteEventStorage.ts, with the connection open. The rows of `tbl_events` stand in the order of their
-- `rowid`, which SQLite gives them from 1 on, since no row is ever deleted. A transaction is one step.
pub mod Queries
pub mod Committing
pub mod Keeping
pub mod SagaStreams
use node_cqrs.Common.{
  ℕ, ◌+◌, suc, true, false, not, ◌&&◌, ◌||◌, Option, none, some, Text, text_eq, truthy, present,
  ◌==◌, ltb, leb, if◌then◌else◌, Bool, List, [], ◌∷◌, ◌++◌, Assoc, insert, lookup, passes, or_else,
}
use node_cqrs.Common.Json.{Json}
use node_cqrs.Common.Lists.{filter, any, length}
use node_cqrs.Messages.{
  Event, Envelope, Batch, Result, ok, err, Error, concurrency_error, type_error, plain_error,
  thrown, guard, ◌>>=◌, ◌>>◌,
}

-- A row of `tbl_events`
pub record EventRow : Type 0 where
  pub rowid : ℕ
  pub id : Text
  pub aggregate_id : Option Text
  pub aggregate_version : Option ℕ
  pub type : Text
  pub json : Text
  pub meta : Option Text

-- A row of `tbl_event_sagas`
pub record SagaRefRow : Type 0 where
  pub saga_descriptor : Text
  pub origin_id : Text
  pub event_id : Text

pub record Tables : Type 0 where
  pub tbl_events : List EventRow
  pub tbl_event_sagas : List SagaRefRow

-- `guid` and `bufferToGuid` of src/sqlite/utils, on the identifiers of events and aggregates, and the
-- JSON of an event.
pub record Codec (A : Type 0) : Type 0 where
  pub guid : Text → Text
  pub buffer_to_guid : Text → Text
  pub json : Json (Event A)
  pub origin_json : Text → Text

-- The error of a violated primary key.
abbrev pub constraint_error : Error
constraint_error = thrown 19

abbrev pub has_row_id : Text → EventRow → Bool
has_row_id id r = text_eq r.id id

-- `#checkConcurrencyQuery`
unfoldable pub has_version : Text → ℕ → EventRow → Bool
has_version id version r =
    passes (λ i. text_eq i id) r.aggregate_id && passes (λ v. v == version) r.aggregate_version

unfoldable pub same_ref : SagaRefRow → SagaRefRow → Bool
same_ref a b =
    text_eq a.saga_descriptor b.saga_descriptor
    && text_eq a.origin_id b.origin_id
    && text_eq a.event_id b.event_id

-- `#insertSagaRefQuery`
unfoldable pub insert_saga_ref : SagaRefRow → Tables → Result Tables
insert_saga_ref ref t =
    if any (same_ref ref) t.tbl_event_sagas
    then err constraint_error
    else ok (record t { tbl_event_sagas = t.tbl_event_sagas ++ ref ∷ [] })

-- `SELECT rowid FROM tbl_events WHERE id = ?`
unfoldable pub find_row : Text → List EventRow → Option EventRow
find_row id [] = none
find_row id (r ∷ rows) = if has_row_id id r then some r else find_row id rows

-- `db.transaction(…)()`: what the function did is undone if it throws.
abbrev pub transaction : Result Tables → Tables → Result (Unit {0}) × Tables
transaction (ok after) t = (ok tt, after)
transaction (err e) t = (err e, t)

module _ {A : Type 0} (c : Codec A) where
  unfoldable pub conflicts_at : Option Text → Option ℕ → List EventRow → Bool
  conflicts_at (some id) (some version) rows =
      truthy id && any (has_version (c.guid id) version) rows
  conflicts_at (some id) none rows = false
  conflicts_at none version rows = false

  -- The test that commits make unless `ignoreConcurrencyError` is set
  unfoldable pub conflicts : Event A → List EventRow → Bool
  unfolding conflicts_at
  conflicts e rows = conflicts_at e.aggregate_id e.aggregate_version rows

  abbrev pub optional_guid : Option Text → Option Text
  optional_guid none = none
  optional_guid (some id) = some (c.guid id)

  -- `const { sagaOrigins, id, ...eventData } = event`
  abbrev pub event_data : Event A → Event A
  event_data e = record e { id = none; saga_origins = none }

  abbrev pub event_row : Text → Option Text → Event A → List EventRow → EventRow
  event_row id meta e rows = record {
    rowid = length rows + 1;
    id = c.guid id;
    aggregate_id = optional_guid e.aggregate_id;
    aggregate_version = e.aggregate_version;
    type = e.type;
    json = c.json.stringify (event_data e);
    meta = meta;
  }

  -- `#insertEventQuery`
  unfoldable pub insert_event : Text → Option Text → Event A → Tables → Result Tables
  insert_event id meta e t =
      if any (has_row_id (c.guid id)) t.tbl_events
      then err constraint_error
      else ok (record t { tbl_events = t.tbl_events ++ event_row id meta e t.tbl_events ∷ [] })

  unfoldable pub insert_saga_refs : Text → Assoc Text → Tables → Result Tables
  insert_saga_refs id [] t = ok t
  insert_saga_refs id ((descriptor, origin) ∷ origins) t =
      insert_saga_ref
        (record { saga_descriptor = descriptor; origin_id = c.guid origin; event_id = c.guid id }) t
      >>= insert_saga_refs id origins

  -- The body of the loop of `commitEvents`
  unfoldable pub commit_event : Bool → Option Text → Event A → Tables → Result Tables
  commit_event ignore meta e t = do
    guard (ignore || not (conflicts e t.tbl_events)) concurrency_error
    guard (present e.id) type_error
    u ← insert_event (or_else e.id []) meta e t
    insert_saga_refs (or_else e.id []) (or_else e.saga_origins []) u

  unfoldable pub commit_each : Bool → Option Text → List (Event A) → Tables → Result Tables
  commit_each ignore meta [] t = ok t
  commit_each ignore meta (e ∷ es) t = commit_event ignore meta e t >>= commit_each ignore meta es

  unfoldable pub commit_events :
      List (Event A) → Bool → Option Text → Tables → Result (List (Event A)) × Tables
  commit_events es ignore meta t =
      let (r, after) = transaction (commit_each ignore meta es t) t in (r >>= (λ u. ok es), after)

  -- `#getSagaOriginsForEvent`
  unfoldable pub saga_origins_of : List SagaRefRow → Text → Assoc Text → Assoc Text
  saga_origins_of [] id origins = origins
  saga_origins_of (ref ∷ refs) id origins = saga_origins_of refs id (
      if text_eq ref.event_id id
      then insert ref.saga_descriptor (c.buffer_to_guid ref.origin_id) origins
      else origins)

  abbrev pub with_origins : Assoc Text → Event A → Event A
  with_origins [] e = e
  with_origins (o ∷ origins) e = record e { saga_origins = some (o ∷ origins) }

  -- `#reconstructEvent`; what was parsed has no `id` of its own.
  unfoldable pub reconstruct_event : List SagaRefRow → EventRow → Event A
  reconstruct_event refs r =
      with_origins (saga_origins_of refs r.id [])
        (record (c.json.parse r.json) { id = some (c.buffer_to_guid r.id) })
