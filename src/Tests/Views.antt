-- ===== src/Tests/Views.antt =====
-- A projection that appends to a record of a SQLite view.
use node_cqrs.Common.{
  ◌≡◌, refl, true, false, none, some, [], ◌∷◌, ◌++◌, List, ℕ, Text, codes, or_else,
}
use node_cqrs.Common.Json.{Json}
use node_cqrs.Messages.{Event, Result, ok}
use node_cqrs.Aggregate.{get_optional_handler}
use node_cqrs.Common.{text_eq}
use node_cqrs.Common.Tables.{upsert, changed, on_conflict, find, update_row, on_found, put}
use node_cqrs.Sqlite.Tables.{same_event, get_event_id}
use node_cqrs.Sqlite.EventLocker as EventLocker
use node_cqrs.Sqlite.ObjectStorage as ObjectStorage
use node_cqrs.Projection.{Settings, project_now}
use node_cqrs.Sqlite.Tables.{Node, event_key, view_key}
use node_cqrs.Sqlite.ObjectView as ObjectView
use node_cqrs.Sqlite.ObjectView.{View, update_enforcing_new}
use node_cqrs.Sqlite.ObjectView.Projecting.{object_view, project_for_good}
use node_cqrs.Sqlite.EventLocker.Lasting.{Act, pause, obtain, take, act_all}
use node_cqrs.Tests.Data.{added}

abbrev node : Node ℕ
node = record {
  stringify = λ e. codes "{}";
  parse = λ s. added 0 (codes "1");
  md5 = λ s. s;
  from_hex = λ s. s;
}

abbrev plain : Json Text
plain = record { stringify = λ s. s; parse = λ s. s }

abbrev options : ObjectView.Settings
options = record {
  view = record { projection_name = codes "p"; schema_version = codes "1" };
  event_lock_ttl = 100;
  view_lock_ttl = 100;
}

abbrev appending : Event ℕ → View → Result (Unit {0}) × View
appending e =
    update_enforcing_new (λ s. s) plain (codes "a") (λ old. ok (or_else old [] ++ codes "y"))
      (λ t. t)

abbrev projection : Settings View ℕ
projection = record {
  handlers = λ type. some appending;
  handles = codes "added" ∷ [];
  event_locker = some (object_view node options);
  view_locker = none;
  should_record_last_event = λ e. true;
  get_events_by_types = λ types after v. (ok [], v);
}

abbrev empty_view : View
empty_view = record {
  locks = record {
    locker = record { lock_marker = false; lock_prolongation_timeout = none };
    db = record { now = 10; view_locks = []; event_locks = [] };
  };
  records = [];
}

abbrev projected_view : View
projected_view = (project_now projection (added 0 (codes "1")) empty_view).1

appending_returns :
    project_now projection (added 0 (codes "1")) empty_view ≡ (ok tt, projected_view)
unfolding project_now get_optional_handler ObjectView.try_mark_as_projecting
    EventLocker.try_mark_as_projecting upsert changed on_conflict find update_enforcing_new
    ObjectStorage.update_enforcing_new ObjectStorage.enforce_sync ObjectStorage.create_sync
    ObjectView.mark_as_projected EventLocker.mark_as_projected update_row on_found same_event
    text_eq put ObjectView.event_locker_of get_event_id EventLocker.finalized_lock
    ObjectView.mark_as_last_event EventLocker.mark_as_last_event
appending_returns = refl

-- Later another worker tries to get the event with a lease of no time, and takes the view.
abbrev meanwhile : List (Act ℕ)
meanwhile =
    pause 500
    ∷ obtain (record { view = options.view; event_lock_ttl = 0 }) (added 0 (codes "1"))
    ∷ take (record { view = options.view; view_lock_ttl = 100 })
    ∷ []

abbrev later_view : View
later_view = record projected_view {
  locks = record projected_view.locks { db = act_all node meanwhile projected_view.locks.db };
}

project_for_good_example :
    project_now projection (added 0 (codes "1")) later_view ≡ (ok tt, later_view)
unfolding get_optional_handler ObjectView.try_mark_as_projecting EventLocker.try_mark_as_projecting
    upsert changed on_conflict find
project_for_good_example =
    project_for_good node options projection (added 0 (codes "1")) empty_view
      (ObjectView.try_mark_as_projecting node options (added 0 (codes "1")) empty_view).1
      projected_view later_view appending meanwhile refl refl refl appending_returns refl
