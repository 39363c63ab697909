-- ===== src/Sqlite/ObjectView/Projecting.antt =====
-- A projection of src/AbstractProjection.ts over a view of src/sqlite/SqliteObjectView.ts.
use node_cqrs.Common.{◌≡◌, sym, ap, subst, true, some, List}
use node_cqrs.Messages.{Event, Result, ok}
use node_cqrs.Aggregate.{get_optional_handler}
use node_cqrs.Projection as Projection
use node_cqrs.Projection.{EventLocker, project_now}
use node_cqrs.Projection.Once.{IsFaithful, project_now-IsMarked, project_now-marked}
use node_cqrs.Sqlite.Tables.{Node}
use node_cqrs.Sqlite.EventLocker.Lasting.{Act, act_all, act_all-IsProcessed}
use node_cqrs.Sqlite.EventLocker.Projecting.{IsProcessed, sqlite_event_locker-IsFaithful}
use node_cqrs.Sqlite.ObjectView.{
  Settings, View, event_locker_of, with_locks, get_last_event, try_mark_as_projecting,
  mark_as_projected, mark_as_last_event,
}

module _ {A : Type 0} (node : Node A) (o : Settings) where
  abbrev pub object_view : EventLocker View A
  object_view = record {
    get_last_event = get_last_event node o;
    try_mark_as_projecting = try_mark_as_projecting node o;
    mark_as_projected = mark_as_projected node o;
    mark_as_last_event = mark_as_last_event node o;
  }

  -- The view's table of event locks has the event as processed.
  abbrev IsProcessedIn : Event A → View → Type 0
  IsProcessedIn e v = IsProcessed node (event_locker_of o) e v.locks.db

  object_view-IsFaithful : IsFaithful object_view IsProcessedIn
  unfolding try_mark_as_projecting mark_as_projected mark_as_last_event with_locks
  object_view-IsFaithful =
      let faithful = sqlite_event_locker-IsFaithful node (event_locker_of o) in
      record {
        refuses = λ e v p. ap (λ q. (q.0, with_locks v q.1)) (faithful.refuses e v.locks.db p);
        marks =
            λ e v v' h. faithful.marks e v.locks.db v'.locks.db (ap (λ q. (q.0, q.1.locks.db)) h);
        keeps = λ e last v v' h.
            faithful.keeps e last v.locks.db v'.locks.db (ap (λ q. (q.0, q.1.locks.db)) h);
      }

  -- A projection over a SQLite view projects an event for good: if the view let it have the event and the
  -- projection returned, then at any later time, whatever statements of the lockers other workers ran on the database meanwhile, for
  -- whatever events and with whatever settings, and whatever became of the records and of the view's own marker and timer, projecting the event again
  -- returns and does nothing, its handler is not called.
  pub project_for_good :
      (t : Projection.Settings View A) (e : Event A) (v v0 v1 v2 : View)
      (handler : Event A → View → Result (Unit {0}) × View) (acts : List (Act A))
      → t.event_locker ≡ some object_view
      → get_optional_handler t.handlers e.type ≡ ok (some handler)
      → try_mark_as_projecting node o e v ≡ (ok true, v0)
      → project_now t e v ≡ (ok tt, v1)
      → v2.locks.db ≡ act_all node acts v1.locks.db
      → project_now t e v2 ≡ (ok tt, v2)
  project_for_good t e v v0 v1 v2 handler acts has found obtained done meanwhile =
      let marked =
        project_now-IsMarked t object_view IsProcessedIn object_view-IsFaithful e v v0 v1 handler
          has found obtained done in
      project_now-marked t object_view IsProcessedIn object_view-IsFaithful e v2 handler has found (
        subst (IsProcessed node (event_locker_of o) e) (sym meanwhile)
          (act_all-IsProcessed node (event_locker_of o) e acts v1.locks.db marked))
