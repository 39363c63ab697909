-- ===== src/Tests/Sagas.antt =====
-- A saga that sends one command for each event.
use node_cqrs.Common.{
  ℕ, ◌+◌, ◌≡◌, refl, true, false, none, some, [], ◌∷◌, Text, codes, text_eq, lookup, insert, has,
  if◌then◌else◌,
}
use node_cqrs.Messages.{Event, Result, ok, err, thrown, is_event}
use node_cqrs.Aggregate.{get_optional_handler}
use node_cqrs.Saga.{Saga, Behaviour, SagaType, done, fail, enqueues}
use node_cqrs.Saga
use node_cqrs.Saga.Handling.{handle_commands, queued, Handled}
use node_cqrs.Saga.EventHandler.{
  Settings, Handler, Place, place, make_saga, attach, handle, restore_saga,
}
use node_cqrs.Saga.EventHandler.Failures.{failed_restore_sticks}
use node_cqrs.Saga.EventHandler.Origins.{place_attached}
use node_cqrs.Utils.SagaId.{make_saga_id}
use node_cqrs.Utils.MapAssertable.{has_key}
use node_cqrs.Tests.Data.{add, added, counter_state}

abbrev on_queued : Result (Unit {0}) → Behaviour ℕ ℕ
on_queued (ok u) = done
on_queued (err x) = fail x

abbrev adds_again : Event ℕ → Saga ℕ ℕ → Behaviour ℕ ℕ
adds_again e s = enqueues add on_queued

abbrev again : SagaType ℕ ℕ
again = record {
  state_type = counter_state;
  handlers = λ type. if text_eq type (codes "added") then some adds_again else none;
}

abbrev fresh_saga : Text → Saga ℕ ℕ
fresh_saga id = record { id = id; version = 0; state = none; messages = []; handling = false }

handle_commands_example :
    Handled again
      (fresh_saga (codes "x:1"))
      (queued (
        adds_again
          (added 0 (codes "1"))
          (record (fresh_saga (codes "x:1")) { handling = true; messages = [] })))
      (Saga.handle again (added 0 (codes "1")) (fresh_saga (codes "x:1")))
unfolding is_event get_optional_handler text_eq
handle_commands_example =
    handle_commands again (added 0 (codes "1")) (fresh_saga (codes "x:1")) adds_again refl refl refl

-- The event store fails; the world counts how often it was asked.
abbrev failing : Settings ℕ ℕ ℕ
failing = record {
  saga_type = again;
  fresh = fresh_saga;
  saga_descriptor = codes "x";
  starts_with = none;
  get_saga_events = λ id e w. (err (thrown 3), w + 1);
  send = λ c w. (ok tt, w);
}

abbrev of_saga : Text → Event ℕ
of_saga id = record (added 1 id) { saga_origins = some ((codes "x", codes "1") ∷ []) }

abbrev continuing : Place
continuing = record { origin = codes "1"; starts = false }

abbrev nothing_cached : Handler ℕ ℕ ℕ
nothing_cached = record {
  cache = record { entries = []; usage_counter = []; factories = [] };
  world = 0;
}

failed_restore_sticks_example :
    ((handle failing (of_saga (codes "2")) nothing_cached).0 ≡ err (thrown 3))
    × ((handle failing
          (of_saga (codes "3"))
          (record (handle failing (of_saga (codes "2")) nothing_cached).1 { world = 9 })).0
        ≡ err (thrown 3))
    × ((handle failing
          (of_saga (codes "3"))
          (record (handle failing (of_saga (codes "2")) nothing_cached).1 { world = 9 })).1.world
        ≡ 9)
unfolding place make_saga_id has_key has make_saga restore_saga lookup text_eq
failed_restore_sticks_example =
    failed_restore_sticks failing (of_saga (codes "2")) (of_saga (codes "3")) continuing continuing
      (codes "x:1") (thrown 3) nothing_cached 1 9 refl refl refl refl refl refl

place_attached_example : place failing (of_saga (codes "2")) ≡ ok continuing
unfolding attach insert
place_attached_example =
    place_attached failing (added 0 (codes "1")) (of_saga (codes "2")) (codes "1") (codes "2") add
      refl refl refl refl refl refl tt
