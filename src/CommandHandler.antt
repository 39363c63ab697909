-- ===== src/CommandHandler.antt =====
-- src/AggregateCommandHandler.ts, over an event store that it is given. A command holds the lock of
-- its aggregate from before its first attempt to after its last, so `execute` is one sequence of
-- steps on the handler; what other processes write meanwhile is in the steps of the store `W`.
pub mod Cases
pub mod Retries
pub mod Cache
pub mod Restoring
use node_cqrs.Common.{
  ℕ, zero, suc, ◌+◌, Bool, true, false, Option, none, some, List, [], ◌∷◌, ◌++◌, Text, truthy,
  or_else, ltb, if◌then◌else◌, ◌≡◌, refl,
}
use node_cqrs.Common.Lists.{length}
use node_cqrs.Messages.{
  Event, Command, Result, ok, err, Error, type_error, is_message, is_concurrency_error,
}
use node_cqrs.Utils.MapAssertable
use node_cqrs.Utils.MapAssertable.{MapAssertable}
use node_cqrs.Aggregate.{Core, Aggregate, replay}
use node_cqrs.Aggregate.Behaviour.{AggregateType, handle}
use node_cqrs.InMemory.EventStorage.{Query}

-- `RetryOnConcurrencyErrorDecision`: `true`, `false` and `'ignore'`.
pub data Decision : Type 0 where
  retry stop ignore : Decision

abbrev pub Resolver : Type 0 → Type 0
Resolver A = Error → List (Event A) → ℕ → Decision

-- `RetryOnConcurrencyErrorOptions`
pub data RetryOptions (A : Type 0) : Type 0 where
  default : RetryOptions A
  always : Bool → RetryOptions A
  ignoring : RetryOptions A
  attempts : ℕ → RetryOptions A
  config : Option ℕ → Option Bool → RetryOptions A
  custom : Resolver A → RetryOptions A

abbrev pub default_max_retry_attempts : ℕ
default_max_retry_attempts = 5

abbrev retry_below : {A : Type 0} → ℕ → Decision → Resolver A
retry_below n after error events attempt =
    if is_concurrency_error error then (if ltb attempt n then retry else after) else stop

unfoldable pub normalize_retry_resolver : {A : Type 0} → RetryOptions A → Resolver A
normalize_retry_resolver default = retry_below default_max_retry_attempts stop
normalize_retry_resolver (always true) = retry_below default_max_retry_attempts stop
normalize_retry_resolver (always false) = λ error events attempt. stop
normalize_retry_resolver ignoring =
    λ error events attempt. if is_concurrency_error error then ignore else stop
normalize_retry_resolver (attempts n) = retry_below n stop
normalize_retry_resolver (config max_retries ignore_after) =
    retry_below (or_else max_retries default_max_retry_attempts)
      (if or_else ignore_after false then ignore else stop)
normalize_retry_resolver (custom f) = f

-- What the handler uses of an event store.
pub record EventStore (W A : Type 0) : Type 0 where
  pub get_new_id : W → Result Text × W
  pub get_aggregate_events : Text → Option Query → W → Result (List (Event A)) × W
  pub dispatch : List (Event A) → Bool → W → Result (List (Event A)) × W

-- A handler's settings. `fresh` is `aggregateFactory({ id })`.
pub record Settings (W S A : Type 0) : Type 0 where
  pub event_store : EventStore W A
  pub aggregate_type : AggregateType S A
  pub fresh : Text → Aggregate S A
  pub restores_from : List Text
  pub should_retry : Resolver A

-- The cache holds settled promises of aggregates; what a command does to an aggregate shows in the
-- cached object.
pub record Handler (W S A : Type 0) : Type 0 where
  pub cache : MapAssertable W (Result (Aggregate S A))
  pub world : W

module _ {W S A : Type 0} (t : Settings W S A) where
  unfoldable pub restore_query : Option Query
  restore_query = elim t.restores_from [
    | [] ↦ none
    | x ∷ xs ↦ some (record { after_version = none; event_types = some (x ∷ xs); tail_last = true })
  ]

  restored : Aggregate S A → Result (Unit {0}) × Core S → Result (Aggregate S A)
  restored a (ok u, core) = ok (record a { core = core })
  restored a (err e, core) = err e

  unfoldable pub rebuild : Text → Result (List (Event A)) → Result (Aggregate S A)
  unfolding restored
  rebuild id (err e) = err e
  rebuild id (ok events) =
      let a = t.fresh id in restored a (replay t.aggregate_type.state_type events a.core)

  -- `#restoreAggregate`
  unfoldable pub restore_aggregate : Text → W → Result (Aggregate S A) × W
  unfolding restore_query
  restore_aggregate id w =
      let (events, w') = t.event_store.get_aggregate_events id restore_query w in
      (rebuild id events, w')

  created : Result Text → Result (Aggregate S A)
  created (err e) = err e
  created (ok id) = ok (t.fresh id)

  -- `#createAggregate`
  unfoldable pub create_aggregate : W → Result (Aggregate S A) × W
  unfolding created
  create_aggregate w = let (id, w') = t.event_store.get_new_id w in (created id, w')

  -- `aggregateId ?`, for an identifier that may be absent or empty
  abbrev pub truthy_id : Option Text → Option Text
  truthy_id none = none
  truthy_id (some id) = if truthy id then some id else none

  unfoldable pub allocate_cache_entry : Option Text → Handler W S A → Handler W S A
  allocate_cache_entry none h = h
  allocate_cache_entry (some id) h =
      let (v, (cache, w)) = MapAssertable.assert id (restore_aggregate id) h.cache h.world in
      record { cache = cache; world = w }

  unfoldable pub reset_cache_entry : Option Text → Handler W S A → Handler W S A
  reset_cache_entry none h = h
  reset_cache_entry (some id) h = record h {
    cache = MapAssertable.set_lazy id (restore_aggregate id) h.cache;
  }

  unfoldable pub release_cache_entry : Option Text → Handler W S A → Handler W S A
  release_cache_entry none h = h
  release_cache_entry (some id) h = record h { cache = MapAssertable.release id h.cache }

  settled : Option (Result (Aggregate S A)) → Result (Aggregate S A)
  settled none = err type_error
  settled (some r) = r

  -- `await this.#aggregatesCache.get(aggregateId)`, or a new aggregate
  unfoldable pub get_aggregate :
      Option Text → Handler W S A → Result (Aggregate S A) × Handler W S A
  unfolding settled
  get_aggregate none h = let (a, w) = create_aggregate h.world in (a, record h { world = w })
  get_aggregate (some id) h =
      let (v, (cache, w)) = MapAssertable.get id h.cache h.world in
      (settled v, record { cache = cache; world = w })

  -- What `handle` did to the aggregate, seen through the cache.
  unfoldable pub write_back : Option Text → Aggregate S A → Handler W S A → Handler W S A
  write_back none a h = h
  write_back (some id) a h = record h { cache = MapAssertable.set id (ok a) h.cache }

  -- `dispatch`, for a batch that is not empty
  unfoldable pub dispatch_events :
      List (Event A) → Bool → Handler W S A → Result (List (Event A)) × Handler W S A
  dispatch_events [] ignored h = (ok [], h)
  dispatch_events (e ∷ es) ignored h =
      let (r, w) = t.event_store.dispatch (e ∷ es) ignored h.world in (r, record h { world = w })

  -- How an attempt ends: by a result or an error for the caller, or by another attempt.
  pub data Attempt : Type 0 where
    returns : List (Event A) → Attempt
    throws : Error → Attempt
    again : Attempt

  forced : List (Event A) → Result (List (Event A)) × Handler W S A → Attempt × Handler W S A
  forced events (ok r, h) = (returns events, h)
  forced events (err e, h) = (throws e, h)

  pub decide : Decision → Error → List (Event A) → Handler W S A → Attempt × Handler W S A
  unfolding forced
  decide stop e events h = (throws e, h)
  decide ignore e events h = forced events (dispatch_events events true h)
  decide retry e events h = (again, h)

  dispatched :
      Option Text
      → List (Event A)
      → ℕ
      → Result (List (Event A)) × Handler W S A
      → Attempt × Handler W S A
  unfolding decide
  dispatched id events attempt (ok r, h) = (returns events, h)
  dispatched id events attempt (err e, h) =
      decide (t.should_retry e events attempt) e events (reset_cache_entry id h)

  handled :
      Option Text
      → ℕ
      → Result (List (Event A)) × Aggregate S A
      → Handler W S A
      → Attempt × Handler W S A
  unfolding dispatched
  handled id attempt (err e, a) h = (throws e, reset_cache_entry id h)
  handled id attempt (ok events, a) h =
      dispatched id events attempt (dispatch_events events false (write_back id a h))

  with_aggregate :
      Option Text → Command A → ℕ → Result (Aggregate S A) × Handler W S A → Attempt × Handler W S A
  unfolding handled
  with_aggregate id c attempt (err e, h) = (throws e, h)
  with_aggregate id c attempt (ok a, h) = handled id attempt (handle t.aggregate_type c a) h

  -- One round of the loop in `execute`.
  unfoldable pub try_once : Option Text → Command A → ℕ → Handler W S A → Attempt × Handler W S A
  unfolding with_aggregate
  try_once id c attempt h = with_aggregate id c attempt (get_aggregate id h)

  continue :
      (Handler W S A → Option (Result (List (Event A)) × Handler W S A))
      → Attempt × Handler W S A
      → Option (Result (List (Event A)) × Handler W S A)
  continue rest (returns events, h) = some (ok events, h)
  continue rest (throws e, h) = some (err e, h)
  continue rest (again, h) = rest h

  -- `for (let attempt = 0; ; attempt++)`, on fuel; `none` means that the fuel ran out.
  unfoldable pub attempt_loop :
      ℕ
      → Option Text
      → Command A
      → ℕ
      → Handler W S A
      → Option (Result (List (Event A)) × Handler W S A)
  unfolding continue
  attempt_loop zero id c attempt h = none
  attempt_loop (suc fuel) id c attempt h =
      continue (attempt_loop fuel id c (suc attempt)) (try_once id c attempt h)

  finished :
      Option Text
      → Option (Result (List (Event A)) × Handler W S A)
      → Option (Result (List (Event A)) × Handler W S A)
  finished id none = none
  finished id (some (r, h)) = some (r, release_cache_entry id h)

  unfoldable pub execute :
      ℕ → Command A → Handler W S A → Option (Result (List (Event A)) × Handler W S A)
  unfolding finished attempt_loop
  execute fuel c h =
      let id = truthy_id c.aggregate_id in
      if is_message c
      then finished id (attempt_loop fuel id c 0 (allocate_cache_entry id h))
      else some (err type_error, h)
