-- ===== src/Mongo/EventStorage/Queries.antt =====
-- The operations of src/mongodb/MongoEventStorage.ts over its collection: a commit, the streams, and `process`, the step of the
-- dispatch pipeline. A generator is the list of what it yields.
use node_cqrs.Common.{
  ℕ, ◌+◌, Bool, true, false, ◌&&◌, ◌||◌, Option, none, some, List, [], ◌∷◌, ◌++◌, Text, present,
  map, passes, ◌==◌, ltb, if◌then◌else◌, or_else, truthy,
}
use node_cqrs.Messages.{Event, Batch, Result, ok, err, type_error, plain_error, guard, ◌>>=◌, ◌>>◌}
use node_cqrs.InMemory.EventStorage.{Query, includes, has_origin}
use node_cqrs.Utils.SagaId.{parse_saga_id}
use node_cqrs.Mongo.EventStorage.{
  ObjectIds, bson_error, AggregateKey, object_id, plain_text, EventDocument, same_key,
  is_hex_object_id, insert_all, find, by_id, by_version, after_version, type_filter, of_types,
  missing_tail,
}

-- The arguments that a batch of events is made of
abbrev parsed_id : Option ℕ → Result ℕ
parsed_id none = err bson_error
parsed_id (some i) = ok i

found_document : {A : Type 0} → List (EventDocument A) → Result (EventDocument A)
found_document [] = err plain_error
found_document (d ∷ docs) = ok d

module _ (ids : ObjectIds) where
  -- `toObjectId`
  unfoldable pub to_object_id : Text → Result ℕ
  to_object_id id = parsed_id (ids.parse id)

  -- `toObjectIdOrString`
  unfoldable pub to_object_id_or_string : Text → Result AggregateKey
  to_object_id_or_string id =
      if is_hex_object_id id
      then to_object_id id >>= (λ i. ok (object_id i))
      else ok (plain_text id)

  abbrev key_text : AggregateKey → Text
  key_text (object_id i) = ids.to_hex i
  key_text (plain_text t) = t

  abbrev optional_text : Option AggregateKey → Option Text
  optional_text none = none
  optional_text (some key) = some (key_text key)

  -- `id !== undefined ? toObjectId(id) : new ObjectId()`, where `fresh` is the new identifier
  abbrev id_or : ℕ → Option Text → Result ℕ
  id_or fresh none = ok fresh
  id_or fresh (some id) = to_object_id id

  -- An empty aggregate identifier is dropped.
  abbrev key_or_none : Option Text → Result (Option AggregateKey)
  key_or_none none = ok none
  key_or_none (some id) =
      if truthy id then to_object_id_or_string id >>= (λ key. ok (some key)) else ok none

module _ {A : Type 0} (ids : ObjectIds) where
  -- `toEvent`
  unfoldable pub to_event : EventDocument A → Event A
  to_event d = record d.rest {
    id = some (ids.to_hex d.id);
    aggregate_id = optional_text ids d.aggregate_key;
  }

  -- `toEventDocument`
  unfoldable pub to_event_document : ℕ → Event A → Result (EventDocument A)
  to_event_document fresh e = do
    id ← id_or ids fresh e.id
    key ← key_or_none ids e.aggregate_id
    ok (record { id = id; aggregate_key = key; rest = record e { id = none; aggregate_id = none } })

  -- `events.map(toEventDocument)`, with the supply of new identifiers
  unfoldable pub to_event_documents : (ℕ → ℕ) → ℕ → List (Event A) → Result (List (EventDocument A))
  to_event_documents fresh n [] = ok []
  to_event_documents fresh n (e ∷ es) = do
    d ← to_event_document (fresh n) e
    ds ← to_event_documents fresh (n + 1) es
    ok (d ∷ ds)

  -- `events[i].id = doc._id.toHexString()`
  unfoldable pub with_ids : List (Event A) → List (EventDocument A) → List (Event A)
  with_ids [] docs = []
  with_ids (e ∷ es) [] = e ∷ es
  with_ids (e ∷ es) (d ∷ ds) = record e { id = some (ids.to_hex d.id) } ∷ with_ids es ds

  unfoldable pub commit_documents :
      List (Event A)
      → Result (List (EventDocument A))
      → List (EventDocument A)
      → Result (List (Event A)) × List (EventDocument A)
  commit_documents es (err x) docs = (err x, docs)
  commit_documents es (ok ds) docs =
      let (r, after) = insert_all ds [] docs in (r >>= (λ done. ok (with_ids es ds)), after)

  unfoldable pub commit_events :
      (ℕ → ℕ)
      → List (Event A)
      → Bool
      → List (EventDocument A)
      → Result (List (Event A)) × List (EventDocument A)
  commit_events fresh es ignore docs =
      if ignore
      then (err plain_error, docs)
      else commit_documents es (to_event_documents fresh 0 es) docs

  abbrev of_aggregate : AggregateKey → EventDocument A → Bool
  of_aggregate key d = passes (same_key key) d.aggregate_key

  unfoldable pub get_aggregate_events :
      Text → Query → List (EventDocument A) → Result (List (Event A))
  get_aggregate_events id q docs = do
    key ← to_object_id_or_string ids id
    ok (
        let results =
          find
            (λ d.
              of_aggregate key d
              && after_version q.after_version d
              && of_types (type_filter q.event_types) d)
            by_version docs in
        map to_event (results ++ missing_tail (of_aggregate key) q results docs))

  abbrev has_object_id : ℕ → EventDocument A → Bool
  has_object_id i d = d.id == i

  -- The saga's descriptor has no dot. `_id` is the origin, or the document has the saga's origin and `_id` is `$gt` the origin and `$lt` the event
  unfoldable pub of_saga : Text → Text → ℕ → ℕ → EventDocument A → Bool
  of_saga descriptor origin first before d =
      has_object_id first d
      || (has_origin descriptor origin d.rest && ltb first d.id && ltb d.id before)

  unfoldable pub get_saga_events : Text → Event A → List (EventDocument A) → Result (List (Event A))
  unfolding found_document
  get_saga_events saga_id before docs = do
    guard (present before.id) type_error
    parts ← parse_saga_id saga_id
    guard (has_origin parts.0 parts.1 before) type_error
    first ← to_object_id ids parts.1
    last ← to_object_id ids (or_else before.id [])
    first_document ← found_document (find (has_object_id first) by_id docs)
    last_document ← found_document (find (has_object_id last) by_id docs)
    ok (map to_event (find (of_saga parts.0 parts.1 first last) by_id docs))

  abbrev after_event : Option (Event A) → Result (EventDocument A → Bool)
  after_event none = ok (λ d. true)
  after_event (some e) = do
    guard (present e.id) type_error
    i ← to_object_id ids (or_else e.id [])
    ok (λ d. ltb i d.id)

  unfoldable pub get_events_by_types :
      List Text → Option (Event A) → List (EventDocument A) → Result (List (Event A))
  get_events_by_types types after docs = do
    later ← after_event after
    ok (map to_event (find (λ d. includes types d.rest.type && later d) by_id docs))

  batch_events : Batch A → Result (List (Event A))
  batch_events [] = ok []
  batch_events (item ∷ batch) = do
    event ← elim item.event [ none ↦ err plain_error | some e ↦ ok e ]
    events ← batch_events batch
    ok (event ∷ events)

  -- `batch[0]?.ignoreConcurrencyError`
  abbrev ignores : Batch A → Bool
  ignores [] = false
  ignores (item ∷ batch) = item.ignore_concurrency_error

  commit_batch :
      (ℕ → ℕ)
      → Batch A
      → Result (List (Event A))
      → List (EventDocument A)
      → Result (Batch A) × List (EventDocument A)
  commit_batch fresh batch (err x) docs = (err x, docs)
  commit_batch fresh batch (ok es) docs =
      let (r, after) = commit_events fresh es (ignores batch) docs in
      (r >>= (λ done. ok batch), after)

  unfoldable pub process :
      (ℕ → ℕ) → Batch A → List (EventDocument A) → Result (Batch A) × List (EventDocument A)
  unfolding batch_events commit_batch
  process fresh batch docs = commit_batch fresh batch (batch_events batch) docs
