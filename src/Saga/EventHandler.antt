-- ===== src/Saga/EventHandler.antt =====
-- src/SagaEventHandler.ts, over an event store and a command bus that it is given. The events of
-- one saga take their turns under the saga's lock, so `handle` is one sequence of steps on the handler.
pub mod Origins
pub mod Failures
use node_cqrs.Common.{
  ℕ, Bool, true, false, not, ◌&&◌, Option, none, some, List, [], ◌∷◌, Text, Assoc, lookup, insert,
  truthy, present, text_eq, passes, if◌then◌else◌,
}
use node_cqrs.Common.Lists.{any}
use node_cqrs.Messages.{
  Event, Command, Result, ok, err, Error, type_error, plain_error, ◌>>=◌, ◌>>◌, guard,
}
use node_cqrs.Utils.MapAssertable
use node_cqrs.Utils.MapAssertable.{MapAssertable}
use node_cqrs.Utils.SagaId.{make_saga_id}
use node_cqrs.Saga.{Saga, SagaType}
use node_cqrs.Saga

-- What the handler is made of. `fresh` is `sagaFactory({ id })`; `send` is the command bus.
pub record Settings (W S A : Type 0) : Type 0 where
  pub saga_type : SagaType S A
  pub fresh : Text → Saga S A
  pub saga_descriptor : Text
  pub starts_with : Option (List Text)
  pub get_saga_events : Text → Event A → W → Result (List (Event A)) × W
  pub send : Command A → W → Result (Unit {0}) × W

pub record Handler (W S A : Type 0) : Type 0 where
  pub cache : MapAssertable W (Result (Saga S A))
  pub world : W

-- Where an event belongs: its saga's origin, and whether it starts the saga.
pub record Place : Type 0 where
  pub origin : Text
  pub starts : Bool

module _ {W S A : Type 0} (t : Settings W S A) where
  -- `event.sagaOrigins?.[this.#sagaDescriptor]`
  unfoldable pub origin_from_event : Event A → Option Text
  origin_from_event e = elim e.saga_origins [
    | none ↦ none
    | some origins ↦ lookup t.saga_descriptor origins
  ]

  unfoldable pub is_starter_event : Event A → Bool
  unfolding origin_from_event
  is_starter_event e = elim t.starts_with [
    | none ↦ not (present (origin_from_event e))
    | some types ↦ any (λ u. text_eq u e.type) types
  ]

  own_id : Option Text → Result Text
  own_id none = err type_error
  own_id (some id) = if truthy id then ok id else err type_error

  given_origin : Option Text → Result Text
  given_origin none = err plain_error
  given_origin (some o) = if truthy o then ok o else err plain_error

  -- The checks at the start of `handle`.
  unfoldable pub place : Event A → Result Place
  unfolding own_id given_origin is_starter_event origin_from_event
  place e = do
    guard (truthy e.type) type_error
    id ← own_id e.id
    guard (not (is_starter_event e && present (origin_from_event e))) plain_error
    origin ← (if is_starter_event e then ok id else given_origin (origin_from_event e))
    ok (record { origin = origin; starts = is_starter_event e })

  restored : Result (Unit {0}) × Saga S A → Result (Saga S A)
  restored (ok u, s) = ok s
  restored (err e, s) = err e

  rebuild : Text → Result (List (Event A)) → Result (Saga S A)
  unfolding restored
  rebuild id (err e) = err e
  rebuild id (ok events) = restored (Saga.replay t.saga_type events (t.fresh id))

  -- `#restoreSaga`
  unfoldable pub restore_saga : Text → Event A → W → Result (Saga S A) × W
  unfolding rebuild
  restore_saga id event w =
      let (events, w') = t.get_saga_events id event w in (rebuild id events, w')

  -- `#createSaga`
  unfoldable pub create_saga : Text → W → Result (Saga S A) × W
  create_saga id w = (ok (t.fresh id), w)

  unfoldable pub make_saga : Place → Text → Event A → W → Result (Saga S A) × W
  unfolding restore_saga create_saga
  make_saga p id event w = if p.starts then create_saga id w else restore_saga id event w

  -- The context and the saga origins that a command gets unless it has its own.
  unfoldable pub attach : Event A → Text → Command A → Command A
  attach e origin c = record c {
    context = elim c.context [ none ↦ e.context | some x ↦ some x ];
    saga_origins = elim c.saga_origins [
      | none ↦ some (
          insert t.saga_descriptor origin
            (elim e.saga_origins [ none ↦ [] | some origins ↦ origins ]))
      | some x ↦ some x
    ];
  }

  send_rest : (W → Result (Unit {0}) × W) → Result (Unit {0}) × W → Result (Unit {0}) × W
  send_rest rest (ok u, w) = rest w
  send_rest rest (err e, w) = (err e, w)

  -- The loop that sends the commands, until one fails.
  unfoldable pub send_all : Event A → Text → List (Command A) → W → Result (Unit {0}) × W
  unfolding send_rest
  send_all e origin [] w = (ok tt, w)
  send_all e origin (c ∷ cs) w = send_rest (send_all e origin cs) (t.send (attach e origin c) w)

  sent : Event A → Text → Result (List (Command A)) → W → Result (Unit {0}) × W
  sent e origin (err x) w = (err x, w)
  sent e origin (ok commands) w = send_all e origin commands w

  -- The inner `try` with its `finally`; a saga that could not be had throws before it.
  unfoldable pub run_saga :
      Event A
      → Text
      → Text
      → Option (Result (Saga S A))
      → Handler W S A
      → Result (Unit {0}) × Handler W S A
  unfolding sent
  run_saga e origin id none h = (err type_error, h)
  run_saga e origin id (some (err x)) h = (err x, h)
  run_saga e origin id (some (ok s)) h =
      let (commands, s') = Saga.handle t.saga_type e s in
      let (r, w) = sent e origin commands h.world in
      (
        r,
        record {
          cache = MapAssertable.release id (MapAssertable.set id (ok s') h.cache);
          world = w;
        },
      )

  handle_as : Result Place → Event A → Handler W S A → Result (Unit {0}) × Handler W S A
  handle_as (err x) e h = (err x, h)
  handle_as (ok p) e h = elim (make_saga_id t.saga_descriptor p.origin) [
    | err x ↦ (err x, h)
    | ok id ↦
        let (v, (cache, w)) = MapAssertable.assert id (make_saga p id e) h.cache h.world in
        run_saga e p.origin id v (record { cache = cache; world = w })
  ]

  unfoldable pub handle : Event A → Handler W S A → Result (Unit {0}) × Handler W S A
  unfolding handle_as
  handle e h = handle_as (place e) e h
