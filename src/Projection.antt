-- ===== src/Projection.antt =====
-- src/AbstractProjection.ts: the base class of projections, over the lockers, the event store and the
-- handlers that it is given. All state, the view's included, is in the world `W`; logging and
-- tracing are left out. `project` waits for the view, so it is a step that only a ready view takes.
pub mod Restoring
pub mod Once
use node_cqrs.Common.{
  Bool, true, false, Option, none, some, List, [], ◌∷◌, Text, if◌then◌else◌, or_else,
}
use node_cqrs.Messages.{Event, Result, ok, err, Error, type_error, plain_error}
use node_cqrs.Aggregate.{get_optional_handler}

-- `IEventLocker`
pub record EventLocker (W A : Type 0) : Type 0 where
  pub get_last_event : W → Result (Option (Event A)) × W
  pub try_mark_as_projecting : Event A → W → Result Bool × W
  pub mark_as_projected : Event A → W → Result (Unit {0}) × W
  pub mark_as_last_event : Event A → W → Result (Unit {0}) × W

-- `IViewLocker`
pub record ViewLocker (W : Type 0) : Type 0 where
  pub ready : W → Bool
  pub lock : W → Result (Unit {0}) × W
  pub unlock : W → W

pub record Settings (W A : Type 0) : Type 0 where
  pub handlers : Text → Option (Event A → W → Result (Unit {0}) × W)
  pub handles : List Text
  pub event_locker : Option (EventLocker W A)
  pub view_locker : Option (ViewLocker W)
  pub should_record_last_event : Event A → Bool
  pub get_events_by_types : List Text → Option (Event A) → W → Result (List (Event A)) × W

-- The sequence of two calls, the second of which only takes place if the first one returns.
unfoldable pub and_then : {W X Y : Type 0} → (X → W → Result Y × W) → Result X × W → Result Y × W
and_then f (ok x, w) = f x w
and_then f (err e, w) = (err e, w)

module _ {W A : Type 0} (t : Settings W A) where
  unfoldable pub record_last : EventLocker W A → Event A → Unit {0} → W → Result (Unit {0}) × W
  record_last locker e u w =
      if t.should_record_last_event e then locker.mark_as_last_event e w else (ok tt, w)

  unfoldable pub if_obtained :
      EventLocker W A
      → (Event A → W → Result (Unit {0}) × W)
      → Event A
      → Bool
      → W
      → Result (Unit {0}) × W
  unfolding and_then record_last
  if_obtained locker handler e false w = (ok tt, w)
  if_obtained locker handler e true w =
      and_then (record_last locker e) (and_then (λ u. locker.mark_as_projected e) (handler e w))

  unfoldable pub handled :
      Option (EventLocker W A)
      → Result (Option (Event A → W → Result (Unit {0}) × W))
      → Event A
      → W
      → Result (Unit {0}) × W
  unfolding and_then if_obtained
  handled locker (err x) e w = (err x, w)
  handled locker (ok none) e w = (err type_error, w)
  handled none (ok (some handler)) e w = handler e w
  handled (some locker) (ok (some handler)) e w =
      and_then (if_obtained locker handler e) (locker.try_mark_as_projecting e w)

  -- `_project`
  unfoldable pub project_now : Event A → W → Result (Unit {0}) × W
  unfolding handled
  project_now e w = handled t.event_locker (get_optional_handler t.handlers e.type) e w

  -- The loop of `_restore`, with the last event restored.
  unfoldable pub project_all : List (Event A) → Option (Event A) → W → Result (Option (Event A)) × W
  unfolding and_then
  project_all [] last w = (ok last, w)
  project_all (e ∷ es) last w = and_then (λ u. project_all es (some e)) (project_now e w)

  unfoldable pub last_event : Option (EventLocker W A) → W → Result (Option (Event A)) × W
  last_event none w = (ok none, w)
  last_event (some locker) w = locker.get_last_event w

  unfoldable pub mark_last : Option (EventLocker W A) → Option (Event A) → W → Result (Unit {0}) × W
  mark_last (some locker) (some e) w = locker.mark_as_last_event e w
  mark_last _ _ w = (ok tt, w)

  -- `_restore`
  unfoldable pub restore_now : W → Result (Unit {0}) × W
  unfolding and_then last_event mark_last
  restore_now w = and_then (mark_last t.event_locker) (
      and_then (λ events. project_all events none)
        (and_then (t.get_events_by_types t.handles) (last_event t.event_locker w)))

  unfoldable pub lock_view : Option (ViewLocker W) → W → Result (Unit {0}) × W
  lock_view none w = (ok tt, w)
  lock_view (some locker) w = locker.lock w

  unfoldable pub unlock_view : Option (ViewLocker W) → Unit {0} → W → Result (Unit {0}) × W
  unlock_view none u w = (ok tt, w)
  unlock_view (some locker) u w = (ok tt, locker.unlock w)

  unfoldable pub restore : W → Result (Unit {0}) × W
  unfolding and_then lock_view unlock_view
  restore w =
      and_then (unlock_view t.view_locker) (and_then (λ u. restore_now) (lock_view t.view_locker w))
