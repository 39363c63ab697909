-- ===== src/Tests/Workers.antt =====
-- A projection in a worker, with batches of two events.
use node_cqrs.Common.{
  ℕ, ◌≡◌, refl, true, Option, none, some, List, [], ◌∷◌, ◌++◌, Text, codes, or_else,
}
use node_cqrs.Messages.{Event, Result, ok}
use node_cqrs.Projection as Main
use node_cqrs.Projection.{Settings, EventLocker, and_then, last_event, mark_last}
use node_cqrs.Workers.ProxyProjection.{ProxySettings, restore_now}
use node_cqrs.Workers.Batches.{last_of, restore_now-batched}
use node_cqrs.Tests.Data.{added}

-- What was projected, and the checkpoint
record Journal : Type 0 where
  projected : List Text
  checkpoint : Option (Event ℕ)

abbrev checkpoints : EventLocker Journal ℕ
checkpoints = record {
  get_last_event = λ w. (ok w.checkpoint, w);
  try_mark_as_projecting = λ e w. (ok true, w);
  mark_as_projected = λ e w. (ok tt, w);
  mark_as_last_event = λ e w. (ok tt, record w { checkpoint = some e });
}

abbrev noted : Event ℕ → Journal → Result (Unit {0}) × Journal
noted e w = (ok tt, record w { projected = w.projected ++ or_else e.id [] ∷ [] })

abbrev three : List (Event ℕ)
three = added 0 (codes "1") ∷ added 1 (codes "2") ∷ added 2 (codes "3") ∷ []

abbrev projection : Settings Journal ℕ
projection = record {
  handlers = λ type. some noted;
  handles = codes "added" ∷ [];
  event_locker = some checkpoints;
  view_locker = none;
  should_record_last_event = λ e. true;
  get_events_by_types = λ types after w. (ok three, w);
}

abbrev proxy : ProxySettings Journal ℕ
proxy = record {
  remote = projection;
  view_locker = none;
  message_types = codes "added" ∷ [];
  get_events_by_types = projection.get_events_by_types;
  restore_batch_size = 2;
}

abbrev journal : Journal
journal = record { projected = []; checkpoint = none }

restore_now-batched_example :
    Main.restore_now projection journal
    ≡ and_then
        (λ u. mark_last projection (some checkpoints) (last_of none three))
        (restore_now proxy journal)
unfolding and_then last_event
restore_now-batched_example = restore_now-batched proxy three journal journal refl refl refl
