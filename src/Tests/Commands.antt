-- ===== src/Tests/Commands.antt =====
-- Commands of a counter, through the aggregate and the command handler.
use node_cqrs.Common.{
  ℕ, ◌≡◌, refl, Bool, true, false, none, some, List, [], ◌∷◌, Text, codes, text_eq, lookup, insert,
  erase, has, subst, ap, or_else, if◌then◌else◌, ◌↔◌, ◌<◌, arith,
}
use node_cqrs.Common.Lists.{filter, last?, any}
use node_cqrs.Messages.{
  Event, Result, ok, concurrency_error, is_concurrency_error, is_message, is_event,
  is_snapshot_event,
}
use node_cqrs.Aggregate.{
  Aggregate, replay, get_optional_handler, emit, emit_raw, make_event, mutate, mutate_state,
}
use node_cqrs.Aggregate.Behaviour.{handle, run, get_uncommitted_events}
use node_cqrs.Aggregate.Behaviour.Versions.{handle_versions, AreSequential}
use node_cqrs.Aggregate.Behaviour.Sourcing.{handle_sourced, AllPropagate, Propagates}
use node_cqrs.CommandHandler.{
  Settings, Handler, default, normalize_retry_resolver, retry, execute, rebuild, attempt_loop,
  try_once, get_aggregate, allocate_cache_entry, release_cache_entry, write_back, dispatch_events,
  restore_aggregate, restore_query,
}
use node_cqrs.CommandHandler.Retries.{
  max_retries, normalize_retry_resolver_bound, execute_total, execute-IsDispatched, IsDispatched,
}
use node_cqrs.CommandHandler.Cache.{execute_releases}
use node_cqrs.CommandHandler.Restoring.{rebuild_version}
use node_cqrs.Utils.MapAssertable.{usage, has_key, get, set, assert, release}
use node_cqrs.Utils.MapAssertable.Counting.{IsCounted}
use node_cqrs.InMemory.EventStorage.{
  EventStorage, of_aggregate, get_aggregate_events, after_snapshot, missing_tail, of_types,
  commit_events, clashes,
}
use node_cqrs.Tests.Data.{
  adder, add, added, counter, counter_id, counter_state, fresh_counter, handler, settings, stored,
}

-- The event that `add` makes of a new counter.
abbrev emitted : Event ℕ
emitted = record (added 0 []) { id = none }

handled_add : (handle counter add (fresh_counter counter_id)).0 ≡ ok (emitted ∷ [])
unfolding handle is_message get_optional_handler text_eq run emit emit_raw make_event mutate
    get_uncommitted_events
handled_add = refl

handle_versions_example :
    AreSequential counter_id add 0 (emitted ∷ [])
    × ((handle counter add (fresh_counter counter_id)).1.version ≡ 1)
    × ((handle counter add (fresh_counter counter_id)).1.changes ≡ emitted ∷ [])
    × ((handle counter add (fresh_counter counter_id)).1.id ≡ counter_id)
handle_versions_example =
    handle_versions counter add (fresh_counter counter_id) (emitted ∷ []) handled_add

counter-AllPropagate : AllPropagate counter add (fresh_counter counter_id)
counter-AllPropagate type h b e = go (text_eq type (codes "add")) e
  where
    go : (found : Bool) → (if found then some adder else none) ≡ some h → Propagates (h add b)
    go true e =
        subst (λ g. Propagates (g add b)) (ap (λ o. or_else o adder) e) ((λ x a. refl), (λ a. tt))
    go false e = absurd (cc e)

handle_sourced_example :
    replay counter_state (emitted ∷ []) (fresh_counter counter_id).core
    ≡ (ok tt, (handle counter add (fresh_counter counter_id)).1.core)
handle_sourced_example =
    handle_sourced counter add (fresh_counter counter_id) (emitted ∷ []) counter-AllPropagate
      handled_add

normalize_retry_resolver_bound_example :
    (normalize_retry_resolver {A = ℕ} default concurrency_error [] 4 ≡ retry)
    ↔ ((is_concurrency_error concurrency_error ≡ true) × (4 < 5))
unfolding max_retries
normalize_retry_resolver_bound_example =
    normalize_retry_resolver_bound {A = ℕ} default 5 refl concurrency_error [] 4

execute_total_example :
    (r : Result (List (Event ℕ)) × Handler (EventStorage ℕ) ℕ ℕ) × (execute settings 6 add
        (handler [])
      ≡ some r)
unfolding max_retries
execute_total_example = execute_total settings default 5 add (handler []) refl refl

abbrev after_add : Handler (EventStorage ℕ) ℕ ℕ
after_add = record { cache = (handler []).cache; world = stored (emitted ∷ []) }

executed : execute settings 6 add (handler []) ≡ some (ok (emitted ∷ []), after_add)
unfolding execute is_message try_once get_aggregate get lookup allocate_cache_entry assert has
    has_key insert erase text_eq restore_aggregate rebuild replay get_aggregate_events filter last?
    handle get_uncommitted_events run emit emit_raw make_event mutate get_optional_handler
    attempt_loop dispatch_events write_back release_cache_entry release usage set restore_query
    after_snapshot missing_tail of_types of_aggregate any commit_events clashes
executed = refl

execute-IsDispatched_example : IsDispatched settings (emitted ∷ []) after_add.world
execute-IsDispatched_example =
    execute-IsDispatched settings 6 add (handler []) after_add (emitted ∷ []) executed

empty-IsCounted : IsCounted (handler []).cache
unfolding has_key has usage lookup
empty-IsCounted = record { used = λ k. ground arith }

execute_releases_example :
    IsCounted after_add.cache × ((k : Text) → usage after_add.cache k ≡ usage (handler []).cache k)
execute_releases_example =
    execute_releases settings (handler []) empty-IsCounted 6 add (ok (emitted ∷ [])) after_add
      executed

-- It reads no event of the type of those that are stored, but the last one all the same.
abbrev selective : Settings (EventStorage ℕ) ℕ ℕ
selective = record settings { restores_from = codes "opened" ∷ [] }

abbrev two_stored : EventStorage ℕ
two_stored = stored (added 4 (codes "1") ∷ added 5 (codes "2") ∷ [])

abbrev restored_counter : Aggregate ℕ ℕ
restored_counter = record (fresh_counter counter_id) {
  core = record { version = 6; snapshot_version = none; state = some 1 };
}

rebuild_version_example : restored_counter.version ≡ 6
unfolding filter of_aggregate text_eq rebuild replay mutate get_aggregate_events after_snapshot
    missing_tail last? of_types restore_query is_event mutate_state get_optional_handler
    is_snapshot_event any
rebuild_version_example =
    rebuild_version selective counter_id two_stored restored_counter (added 5 (codes "2")) 5 refl
      refl refl
