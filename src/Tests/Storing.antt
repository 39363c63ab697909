-- ===== src/Tests/Storing.antt =====
-- The storages at work.
use node_cqrs.Common.{
  Option, if◌then◌else◌, Bool, ltb, ◌+◌, Assoc, lookup, text_eq, ℕ, ◌≡◌, refl, true, false, some,
  [], ◌∷◌, ◌++◌, Text, codes, ◌⊎◌, arith, lookup, text_eq,
}
use node_cqrs.Common.Lists.{filter}
use node_cqrs.Messages.{Event, Result, plain_error, ok, err, concurrency_error}
use node_cqrs.InMemory.EventStorage.{
  EventStorage, Query, commit_events, get_saga_events, has_origin,
}
use node_cqrs.InMemory.EventStorage.Versions.{commit_outcome, AreApart, IsDistinct}
use node_cqrs.InMemory.EventStorage.SagaQueries.{get_saga_events_between}
use node_cqrs.InMemory.View.{update_all}
use node_cqrs.InMemory.View.Bulk.{update_all-each, each_updated, HasDistinctKeys}
use node_cqrs.Utils.SagaId.{parse_saga_id}
use node_cqrs.Tests.Data.{added, stored}

abbrev two_stored : EventStorage ℕ
two_stored = stored (added 0 (codes "1") ∷ added 1 (codes "2") ∷ [])

abbrev last_of_none : Query
last_of_none = record {
  after_version = some 1;
  event_types = some (codes "other" ∷ []);
  tail_last = true;
}

abbrev of_saga : ℕ → Text → Event ℕ
of_saga version id = record (added version id) { saga_origins = some ((codes "x", codes "1") ∷ []) }

abbrev saga_stored : EventStorage ℕ
saga_stored = stored (added 0 (codes "1") ∷ of_saga 1 (codes "2") ∷ of_saga 2 (codes "3") ∷ [])

get_saga_events_between_example :
    get_saga_events (codes "x:1") (of_saga 2 (codes "3")) saga_stored
    ≡ ok (
        filter
          (has_origin (codes "x") (codes "1"))
          (added 0 (codes "1") ∷ of_saga 1 (codes "2") ∷ []))
unfolding parse_saga_id has_origin lookup text_eq
get_saga_events_between_example =
    get_saga_events_between (codes "x:1") (codes "x") (codes "1") (codes "3") saga_stored []
      (of_saga 1 (codes "2") ∷ []) [] (added 0 (codes "1")) (of_saga 2 (codes "3"))
      (of_saga 2 (codes "3")) refl refl tt refl ((λ h. ground arith), ((λ h. ground arith), tt))
      refl refl (λ h. cc h) refl

one-IsDistinct : (e : Event ℕ) → IsDistinct (e ∷ [])
one-IsDistinct e = (tt, tt)

commit_outcome_example :
    ((¬ AreApart (stored (added 0 (codes "1") ∷ [])).events (added 0 (codes "2") ∷ []))
      × (commit_events (added 0 (codes "2") ∷ []) false (stored (added 0 (codes "1") ∷ []))
          ≡ (err concurrency_error, stored (added 0 (codes "1") ∷ []))))
    ⊎ (AreApart (stored (added 0 (codes "1") ∷ [])).events (added 0 (codes "2") ∷ [])
        × (commit_events (added 0 (codes "2") ∷ []) false (stored (added 0 (codes "1") ∷ [])) ≡ (
          ok (added 0 (codes "2") ∷ []),
          record (stored (added 0 (codes "1") ∷ [])) {
            events = (stored (added 0 (codes "1") ∷ [])).events ++ added 0 (codes "2") ∷ [];
          },
        ))
        × IsDistinct
            (commit_events
              (added 0 (codes "2") ∷ [])
              false
              (stored (added 0 (codes "1") ∷ []))).1.events)
commit_outcome_example =
    commit_outcome (stored (added 0 (codes "1") ∷ [])) (added 0 (codes "2") ∷ [])
      (one-IsDistinct (added 0 (codes "1"))) (one-IsDistinct (added 0 (codes "2")))

abbrev three_records : Assoc ℕ
three_records = (codes "a", 1) ∷ (codes "b", 5) ∷ (codes "c", 9) ∷ []

abbrev above_three : Option (ℕ → Result Bool)
above_three = some (λ n. ok (ltb 3 n))

-- It throws for the last record.
abbrev below_nine : ℕ → Result (Option ℕ)
below_nine n = if ltb n 9 then ok (some (n + 1)) else err plain_error

three_records-HasDistinctKeys : HasDistinctKeys three_records
unfolding text_eq
three_records-HasDistinctKeys = ((refl, (refl, tt)), ((refl, tt), (tt, tt)))

update_all-each_example :
    update_all above_three below_nine three_records
    ≡ (err plain_error, (codes "a", 1) ∷ (codes "b", 6) ∷ (codes "c", 9) ∷ [])
unfolding each_updated
update_all-each_example =
    update_all-each above_three below_nine three_records three_records-HasDistinctKeys
