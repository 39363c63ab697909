-- ===== src/InMemory/EventStorage.antt =====
-- src/in-memory/InMemoryEventStorage.ts. Each method checks and writes between two awaits, so a
-- call is one step; a generator is the list of what it yields.
pub mod Versions
pub mod Queries
pub mod SagaQueries
use node_cqrs.Common.{
  ℕ, suc, ◌+◌, ◌-◌, Bool, true, false, ◌&&◌, ◌||◌, not, Option, none, some, List, [], ◌∷◌, ◌++◌,
  Text, text_eq, Assoc, lookup, ◌==◌, ltb, passes, truthy, present, if◌then◌else◌,
}
use node_cqrs.Common.Lists.{filter, any, last?, slice}
use node_cqrs.Messages.{
  Event, Envelope, Batch, Result, ok, err, Error, concurrency_error, type_error, plain_error, guard,
  ◌>>=◌, ◌>>◌, defined,
}
use node_cqrs.Utils.SagaId.{parse_saga_id}

-- `#nextId` and `#events`
pub record EventStorage (A : Type 0) : Type 0 where
  pub next_id : ℕ
  pub events : List (Event A)

-- `options.snapshot?.aggregateVersion`, `options.eventTypes` and `options.tail === 'last'`
pub record Query : Type 0 where
  pub after_version : Option ℕ
  pub event_types : Option (List Text)
  pub tail_last : Bool

abbrev pub includes : List Text → Text → Bool
includes types t = any (λ u. text_eq u t) types

shift : Option ℕ → Option ℕ
shift none = none
shift (some i) = some (suc i)

or_missing : Option ℕ → Result ℕ
or_missing none = err plain_error
or_missing (some i) = ok i

module _ {A : Type 0} where
  abbrev pub empty : EventStorage A
  empty = record { next_id = 0; events = [] }

  -- The identifier is the decimal form of the counter; the model keeps the number.
  unfoldable pub get_new_id : EventStorage A → ℕ × EventStorage A
  get_new_id s = (s.next_id + 1, record s { next_id = s.next_id + 1 })

  -- `e` stands in for the version of `id` already.
  unfoldable pub same_version : Text → ℕ → Event A → Bool
  same_version id version e =
      passes (λ i. text_eq i id) e.aggregate_id && passes (λ v. v == version) e.aggregate_version

  clashes_at : List (Event A) → Option Text → Option ℕ → Bool
  clashes_at stored (some id) (some version) = any (same_version id version) stored
  clashes_at stored (some id) none = false
  clashes_at stored none version = false

  unfoldable pub clashes : List (Event A) → Event A → Bool
  unfolding clashes_at
  clashes stored event = clashes_at stored event.aggregate_id event.aggregate_version

  -- `commitEvents(events, { ignoreConcurrencyError })`
  unfoldable pub commit_events :
      List (Event A) → Bool → EventStorage A → Result (List (Event A)) × EventStorage A
  commit_events events ignore s =
      if not ignore && any (clashes s.events) events
      then (err concurrency_error, s)
      else (ok events, record s { events = s.events ++ events })

  unfoldable pub of_aggregate : Text → Event A → Bool
  of_aggregate id e = passes (λ i. text_eq i id) e.aggregate_id

  -- `!afterVersion` holds for version 0 too.
  unfoldable pub after_snapshot : Text → Option ℕ → Event A → Bool
  unfolding of_aggregate
  after_snapshot id none e = of_aggregate id e
  after_snapshot id (some after) e =
      if after == 0
      then of_aggregate id e
      else of_aggregate id e && passes (λ v. ltb after v) e.aggregate_version

  unfoldable pub of_types : Option (List Text) → Event A → Bool
  of_types none e = true
  of_types (some types) e = includes types e.type

  -- The tail event is yielded after the results, unless it is the last of them. Both lists hold the
  -- same objects in the same order, so the last result is the tail object (`===`) exactly when
  -- the tail passes the test on types by which the results were chosen.
  unfoldable pub missing_tail : Query → List (Event A) → List (Event A)
  unfolding of_types
  missing_tail q all = elim (last? all) [
    | none ↦ []
    | some e ↦ if q.tail_last && not (of_types q.event_types e) then e ∷ [] else []
  ]

  unfoldable pub get_aggregate_events : Text → Query → EventStorage A → List (Event A)
  unfolding missing_tail
  get_aggregate_events id q s =
      let all = filter (after_snapshot id q.after_version) s.events in
      filter (of_types q.event_types) all ++ missing_tail q all

  has_id : Text → Event A → Bool
  has_id id e = passes (λ i. text_eq i id) e.id

  -- `findIndex`; `none` is -1.
  unfoldable pub find_index : (Event A → Bool) → List (Event A) → Option ℕ
  unfolding shift
  find_index p [] = none
  find_index p (e ∷ es) = let rest = shift (find_index p es) in if p e then some 0 else rest

  -- `event.sagaOrigins?.[descriptor] === origin`
  unfoldable pub has_origin : Text → Text → Event A → Bool
  has_origin descriptor origin e =
      passes (λ origins. passes (λ o. text_eq o origin) (lookup descriptor origins)) e.saga_origins

  -- `assertString(event.id)`
  unfoldable pub event_id : Event A → Result Text
  event_id e = elim e.id [
    | none ↦ err type_error
    | some id ↦ if truthy id then ok id else err type_error
  ]

  unfoldable pub get_saga_events : Text → Event A → EventStorage A → Result (List (Event A))
  unfolding event_id has_id or_missing
  get_saga_events saga_id before s = do
    before_id ← event_id before
    parts ← parse_saga_id saga_id
    guard (has_origin parts.0 parts.1 before) type_error
    origin_offset ← or_missing (find_index (has_id parts.1) s.events)
    before_offset ← or_missing (find_index (has_id before_id) s.events)
    ok (filter (has_origin parts.0 parts.1) (slice origin_offset before_offset s.events))

  -- The loop of `getEventsByTypes`: nothing is yielded up to the event of the identifier.
  events_after : List Text → Text → Bool → List (Event A) → List (Event A)
  unfolding has_id
  events_after types id found [] = []
  events_after types id found (e ∷ es) =
      let rest = events_after types id (found || has_id id e) es in
      if found && includes types e.type then e ∷ rest else rest

  unfoldable pub get_events_by_types :
      List Text → Option (Event A) → EventStorage A → Result (List (Event A))
  unfolding events_after event_id
  get_events_by_types types none s = ok (events_after types [] true s.events)
  get_events_by_types types (some after) s = do
    id ← event_id after
    ok (events_after types id false s.events)

  unfoldable pub batch_events : Batch A → Result (List (Event A))
  batch_events [] = ok []
  batch_events (item ∷ batch) = do
    event ← elim item.event [ none ↦ err plain_error | some e ↦ ok e ]
    events ← batch_events batch
    ok (event ∷ events)

  -- `batch.at(0)?.ignoreConcurrencyError`
  abbrev pub ignores : Batch A → Bool
  ignores [] = false
  ignores (item ∷ batch) = item.ignore_concurrency_error

  unfoldable pub commit_batch :
      Batch A → Result (List (Event A)) → EventStorage A → Result (Batch A) × EventStorage A
  unfolding commit_events
  commit_batch batch (err e) s = (err e, s)
  commit_batch batch (ok events) s =
      let (r, s') = commit_events events (ignores batch) s in (r >>= (λ _. ok batch), s')

  unfoldable pub process : Batch A → EventStorage A → Result (Batch A) × EventStorage A
  unfolding batch_events commit_batch
  process batch s = commit_batch batch (batch_events batch) s
