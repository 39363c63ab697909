-- ===== src/Saga.antt =====
-- src/AbstractSaga.ts: the base class of sagas, over what a derived class supplies. What a handler
-- does to its saga is a sequence of `enqueueRaw` calls.
pub mod Handling
pub mod EventHandler
use node_cqrs.Common.{
  ℕ, ◌+◌, Bool, true, false, Option, none, some, List, [], ◌∷◌, ◌++◌, Text, if◌then◌else◌,
}
use node_cqrs.Messages.{
  Event, Command, Result, ok, err, Error, type_error, plain_error, is_event, is_message,
}
use node_cqrs.Aggregate.{StateType, get_optional_handler, mutate_state}

pub record Saga (S A : Type 0) : Type 0 where
  pub id : Text
  pub version : ℕ
  pub state : Option S
  pub messages : List (Command A)
  pub handling : Bool

-- After each call the handler goes on from what it returned or threw.
pub data Behaviour (S A : Type 0) : Type 0 where
  done : Behaviour S A
  fail : Error → Behaviour S A
  enqueues : Command A → (Result (Unit {0}) → Behaviour S A) → Behaviour S A

pub record SagaType (S A : Type 0) : Type 0 where
  pub state_type : StateType S A
  pub handlers : Text → Option (Event A → Saga S A → Behaviour S A)

module _ {S A : Type 0} (t : SagaType S A) where
  mutated : Result (Unit {0}) × Option S → Saga S A → Result (Unit {0}) × Saga S A
  mutated (ok u, state) s = (ok tt, record s { state = state; version = s.version + 1 })
  mutated (err e, state) s = (err e, record s { state = state })

  unfoldable pub mutate : Event A → Saga S A → Result (Unit {0}) × Saga S A
  unfolding mutated
  mutate event s =
      if is_event event
      then mutated (mutate_state t.state_type event s.state) s
      else (err type_error, s)

  unfoldable pub enqueue_raw : Command A → Saga S A → Result (Unit {0}) × Saga S A
  enqueue_raw c s =
      if is_message c
      then (ok tt, record s { messages = s.messages ++ c ∷ [] })
      else (err type_error, s)

  unfoldable pub run : Behaviour S A → Saga S A → Result (Unit {0}) × Saga S A
  run done s = (ok tt, s)
  run (fail e) s = (err e, s)
  run (enqueues c rest) s = let (r, s') = enqueue_raw c s in run (rest r) s'

  then_mutate : Event A → Result (Unit {0}) × Saga S A → Result (Unit {0}) × Saga S A
  then_mutate event (ok u, s) = mutate event s
  then_mutate event (err e, s) = (err e, s)

  -- `this.#messages.splice(0)`, and the `finally`
  spliced : Result (Unit {0}) × Saga S A → Result (List (Command A)) × Saga S A
  spliced (ok u, s) = (ok s.messages, record s { messages = []; handling = false })
  spliced (err e, s) = (err e, record s { handling = false })

  with_handler :
      Result (Option (Event A → Saga S A → Behaviour S A))
      → Event A
      → Saga S A
      → Result (List (Command A)) × Saga S A
  unfolding then_mutate spliced
  with_handler (err e) event s = (err e, s)
  with_handler (ok none) event s = (err type_error, s)
  with_handler (ok (some handler)) event s =
      let s' = record s { handling = true; messages = [] } in
      spliced (then_mutate event (run (handler event s') s'))

  unfoldable pub handle : Event A → Saga S A → Result (List (Command A)) × Saga S A
  unfolding with_handler
  handle event s =
      if is_event event
      then (if s.handling
          then (err plain_error, s)
          else with_handler (get_optional_handler t.handlers event.type) event s)
      else (err type_error, s)

  -- `mutate` for each event, until one throws
  replay_rest :
      (Saga S A → Result (Unit {0}) × Saga S A)
      → Result (Unit {0}) × Saga S A
      → Result (Unit {0}) × Saga S A
  replay_rest rest (ok u, s) = rest s
  replay_rest rest (err e, s) = (err e, s)

  unfoldable pub replay : List (Event A) → Saga S A → Result (Unit {0}) × Saga S A
  unfolding replay_rest
  replay [] s = (ok tt, s)
  replay (e ∷ es) s = replay_rest (replay es) (mutate e s)
