-- ===== src/CommandHandler/Restoring.antt =====
-- The version of an aggregate that is restored from the in-memory event storage.
use node_cqrs.Common.{
  ℕ, suc, ◌≡◌, refl, ◌∙◌, true, false, Option, none, some, List, [], ◌∷◌, Text, arith,
}
use node_cqrs.Common.Lists.{last?, filter}
use node_cqrs.Messages.{Event, Result, ok, err}
use node_cqrs.Aggregate.{Core, Aggregate, replay}
use node_cqrs.Aggregate.Replay.{replay_version}
use node_cqrs.InMemory.EventStorage.{
  EventStorage, Query, get_aggregate_events, of_aggregate, after_snapshot,
}
use node_cqrs.InMemory.EventStorage.Queries.{
  last?-get_aggregate_events, last?-get_aggregate_events_all,
}
use node_cqrs.CommandHandler.{Settings, restore_query, rebuild, restored}

-- What `options` stands for where it is undefined.
abbrev pub query_or_all : Option Query → Query
query_or_all none = record { after_version = none; event_types = none; tail_last = false }
query_or_all (some q) = q

module _ {W S A : Type 0} (t : Settings W S A) where
  restored-inverts :
      (b a : Aggregate S A) (r : Result (Unit {0}) × Core S)
      → restored t b r ≡ ok a
      → r ≡ (ok tt, a.core)
  unfolding restored
  restored-inverts b a (ok u, c) h = ground (arith, h)
  restored-inverts b a (err e, c) h = absurd (cc h)

  restored_version :
      (id : Text) (es : List (Event A)) (a : Aggregate S A) (last : Event A) (n : ℕ)
      → last? es ≡ some last
      → last.aggregate_version ≡ some n
      → rebuild t id (ok es) ≡ ok a
      → a.version ≡ suc n
  unfolding rebuild
  restored_version id es a last n there at_n h =
      let state = t.aggregate_type.state_type in
      let done = restored-inverts (t.fresh id) a (replay state es (t.fresh id).core) h in
      replay_version state es last n (t.fresh id).core a.core done there at_n

  same_last :
      (id : Text) (s : EventStorage A) (types : List Text)
      → t.restores_from ≡ types
      → last? (get_aggregate_events id (query_or_all (restore_query t)) s)
        ≡ last? (filter (of_aggregate id) s.events)
  unfolding restore_query after_snapshot
  same_last id s [] e = rw e (last?-get_aggregate_events_all id (query_or_all none) s refl)
  same_last id s (x ∷ xs) e = rw e (
      last?-get_aggregate_events id
        (record { after_version = none; event_types = some (x ∷ xs); tail_last = true }) s refl)

  -- The next event of a restored aggregate follows its last stored one: if an aggregate is restored from the in-memory event storage, read
  -- without a snapshot, its last stored event has version n, and no event of the answer throws, then the aggregate is at version
  -- n + 1, also if the aggregate reads some types of events only and the last event is of another type.
  pub rebuild_version :
      (id : Text) (s : EventStorage A) (a : Aggregate S A) (last : Event A) (n : ℕ)
      → last? (filter (of_aggregate id) s.events) ≡ some last
      → last.aggregate_version ≡ some n
      → rebuild t id (ok (get_aggregate_events id (query_or_all (restore_query t)) s)) ≡ ok a
      → a.version ≡ suc n
  rebuild_version id s a last n there at_n h =
      restored_version id (get_aggregate_events id (query_or_all (restore_query t)) s) a last n
        (same_last id s t.restores_from refl ∙ there) at_n h
