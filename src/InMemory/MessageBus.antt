-- ===== src/InMemory/MessageBus.antt =====
-- src/in-memory/InMemoryMessageBus.ts. A handler is a number, by which functions are told apart; what
-- the bus does is said by the handlers that it calls. The bus that `queue` returns is an observable,
-- without queues of its own.
pub mod Subscribers
use node_cqrs.Common.{
  ℕ, Bool, true, false, not, Option, none, some, List, [], ◌∷◌, ◌++◌, Text, Assoc, lookup, insert,
  has, if◌then◌else◌, ◌==◌, truthy,
}
use node_cqrs.Common.Lists.{filter, any}
use node_cqrs.Messages.{
  Event, Command, Result, ok, err, Error, plain_error, type_error, is_event, is_message,
}

pub record Subscriptions : Type 0 where
  pub handlers : Assoc (List ℕ)
  pub unique_event_handlers : Bool

pub record MessageBus : Type 0 where
  pub own : Subscriptions
  pub queues : Assoc Subscriptions

-- `Set.add`
unfoldable pub add : ℕ → List ℕ → List ℕ
add h hs = if any (λ i. i == h) hs then hs else hs ++ h ∷ []

abbrev pub handlers_of : Text → Subscriptions → List ℕ
handlers_of type s = elim (lookup type s.handlers) [ none ↦ [] | some hs ↦ hs ]

-- `on` and `off`, where `assertString(messageType)` does not throw
on_named : Text → ℕ → Subscriptions → Result (Unit {0}) × Subscriptions
on_named type h s = elim (lookup type s.handlers) [
  | none ↦ (ok tt, record s { handlers = insert type (add h []) s.handlers })
  | some hs ↦
      if s.unique_event_handlers
      then (err plain_error, s)
      else (ok tt, record s { handlers = insert type (add h hs) s.handlers })
]

off_named : Text → ℕ → Subscriptions → Result (Unit {0}) × Subscriptions
off_named type h s = elim (lookup type s.handlers) [
  | none ↦ (err plain_error, s)
  | some hs ↦
      (ok tt, record s { handlers = insert type (filter (λ i. not (i == h)) hs) s.handlers })
]

unfoldable pub on : Text → ℕ → Subscriptions → Result (Unit {0}) × Subscriptions
unfolding on_named
on type h s = if truthy type then on_named type h s else (err type_error, s)

unfoldable pub off : Text → ℕ → Subscriptions → Result (Unit {0}) × Subscriptions
unfolding off_named
off type h s = if truthy type then off_named type h s else (err type_error, s)

abbrev pub new_queue : Subscriptions
new_queue = record { handlers = []; unique_event_handlers = true }

-- `queue`: the named queue, and the bus that has it
unfoldable pub queue : Text → MessageBus → Subscriptions × MessageBus
queue name bus = elim (lookup name bus.queues) [
  | none ↦ (new_queue, record bus { queues = insert name new_queue bus.queues })
  | some q ↦ (q, bus)
]

unfoldable pub only_handler : Option (List ℕ) → Result ℕ
only_handler (some (h ∷ [])) = ok h
only_handler _ = err plain_error

unfoldable pub publish_queues : Text → Assoc Subscriptions → List ℕ
publish_queues type [] = []
publish_queues type ((name, q) ∷ qs) = handlers_of type q ++ publish_queues type qs

module _ {A : Type 0} where
  -- `send`: the handler that gets the command
  unfoldable pub send : Command A → MessageBus → Result ℕ
  unfolding only_handler
  send c bus =
      if is_message c then only_handler (lookup c.type bus.own.handlers) else err type_error

  -- `publish`: the handlers that get the event, in the order of the calls
  unfoldable pub publish : Event A → MessageBus → Result (List ℕ)
  unfolding publish_queues
  publish e bus =
      if is_event e
      then ok (handlers_of e.type bus.own ++ publish_queues e.type bus.queues)
      else err type_error
