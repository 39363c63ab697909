-- ===== src/InMemory/MessageBus/Subscribers.antt =====
-- Who subscribes to the buses of src/in-memory/InMemoryMessageBus.ts.
use node_cqrs.Common.{
  ℕ, ◌≤◌, ◌≡◌, ◌≢◌, ◌∙◌, refl, true, false, none, some, List, [], ◌∷◌, Text, lookup, insert,
  lookup-insert, lookup-insert_self, arith, Bool-cases, ◌==◌, Option-cases, inl, inr, text_eq,
  truthy,
}
use node_cqrs.Common.Lists.{length, filter, any}
use node_cqrs.Messages.{Command, ok, err, plain_error, is_message}
use node_cqrs.InMemory.MessageBus.{
  Subscriptions, MessageBus, on, on_named, only_handler, off, off_named, add, send, handlers_of,
}

-- A queue: it refuses a second handler of a type, and has at most one of each.
pub record IsQueue (s : Subscriptions) : Type 0 where
  pub unique : s.unique_event_handlers ≡ true
  pub one_each : (type : Text) → length (handlers_of type s) ≤ 1

on-named :
    (type : Text) (h : ℕ) (s : Subscriptions) → truthy type ≡ true → on type h s ≡ on_named type h s
unfolding on
on-named type h s named = rw named refl

off-named :
    (type : Text) (h : ℕ) (s : Subscriptions)
    → truthy type ≡ true
    → off type h s ≡ off_named type h s
unfolding off
off-named type h s named = rw named refl

on_first :
    (type : Text) (h : ℕ) (s : Subscriptions)
    → truthy type ≡ true
    → lookup type s.handlers ≡ none
    → on type h s ≡ (ok tt, record s { handlers = insert type (h ∷ []) s.handlers })
unfolding on_named add any
on_first type h s named free = on-named type h s named ∙ rw (free, on_named) refl

on_unique :
    (type : Text) (h : ℕ) (s : Subscriptions) (hs : List ℕ)
    → truthy type ≡ true
    → lookup type s.handlers ≡ some hs
    → s.unique_event_handlers ≡ true
    → on type h s ≡ (err plain_error, s)
unfolding on_named
on_unique type h s hs named found unique =
    on-named type h s named ∙ rw (found, unique, on_named) refl

on_second :
    (type : Text) (h g : ℕ) (s : Subscriptions)
    → truthy type ≡ true
    → lookup type s.handlers ≡ some (h ∷ [])
    → s.unique_event_handlers ≡ false
    → h ≢ g
    → on type g s ≡ (ok tt, record s { handlers = insert type (h ∷ g ∷ []) s.handlers })
unfolding on_named add any
on_second type h g s named found shared other =
    on-named type g s named ∙ rw (found, shared, on_named, any, add, ==_false h g other) refl
  where
    ==_false : (a b : ℕ) → a ≢ b → (a == b) ≡ false
    ==_false a b ne = ground arith

off_only :
    (type : Text) (h : ℕ) (s : Subscriptions)
    → truthy type ≡ true
    → lookup type s.handlers ≡ some (h ∷ [])
    → off type h s ≡ (ok tt, record s { handlers = insert type [] s.handlers })
unfolding off_named filter
off_only type h s named found =
    off-named type h s named ∙ rw (found, off_named, filter, ==_self h) refl
  where
    ==_self : (a : ℕ) → (a == a) ≡ true
    ==_self a = ground arith

one_each-insert :
    (type other : Text) (h : ℕ) (s : Subscriptions)
    → length (handlers_of other s) ≤ 1
    → length (handlers_of other (record s { handlers = insert type (h ∷ []) s.handlers })) ≤ 1
one_each-insert type other h s few = elim (Bool-cases (text_eq type other)) [
  | inl same ↦ rw (lookup-insert type other (h ∷ []) s.handlers, handlers_of, same) (omega arith)
  | inr apart ↦ rw (lookup-insert type other (h ∷ []) s.handlers, handlers_of, apart) few
]

-- A queue has at most one handler of an event type, and stays so when it is asked for another
-- subscription.
pub on-IsQueue : (type : Text) (h : ℕ) (s : Subscriptions) → IsQueue s → IsQueue (on type h s).1
unfolding on
on-IsQueue type h s q = elim (Bool-cases (truthy type)) [
  | inr nameless ↦ rw nameless q
  | inl named ↦ elim (Option-cases (lookup type s.handlers)) [
    | inl free ↦ rw (on_first type h s named free) (record {
      unique = q.unique;
      one_each = λ other. one_each-insert type other h s (q.one_each other);
    })
    | inr (hs, found) ↦ rw (on_unique type h s hs named found q.unique) q
  ]
]

-- Unsubscribing the handler that a queue has for a type, whose name is not empty, leaves the queue without a handler of the type,
-- and from then on every subscription to the type is refused.
pub off_blocks_on :
    (type : Text) (h g : ℕ) (s : Subscriptions)
    → truthy type ≡ true
    → s.unique_event_handlers ≡ true
    → lookup type s.handlers ≡ some (h ∷ [])
    → (handlers_of type (off type h s).1 ≡ [])
      × (on type g (off type h s).1 ≡ (err plain_error, (off type h s).1))
off_blocks_on type h g s named unique found =
    let emptied = lookup-insert_self type [] s.handlers in
    rw (off_only type h s named found) (
      rw (emptied, handlers_of) refl,
      on_unique type g (record s { handlers = insert type [] s.handlers }) [] named emptied unique,
    )

-- On a bus that shares event types and has no handler for a command, sending it fails. Once a handler
-- has subscribed the command goes to it, and once another one has too, sending fails again.
pub on-send :
    {A : Type 0} (c : Command A) (h g : ℕ) (bus : MessageBus)
    → is_message c ≡ true
    → bus.own.unique_event_handlers ≡ false
    → lookup c.type bus.own.handlers ≡ none
    → h ≢ g
    → let once = record bus { own = (on c.type h bus.own).1 } in
      let twice = record once { own = (on c.type g once.own).1 } in
      (send c bus ≡ err plain_error) × (send c once ≡ ok h) × (send c twice ≡ err plain_error)
unfolding send only_handler is_message
on-send c h g bus good shared free other =
    let hs = insert c.type (h ∷ []) bus.own.handlers in
    let once = lookup-insert_self c.type (h ∷ []) bus.own.handlers in
    rw
      (
        good,
        on_first c.type h bus.own good free,
        on_second c.type h g (record bus.own { handlers = hs }) good once shared other,
      )
      (rw free refl, rw once refl, rw (lookup-insert_self c.type (h ∷ g ∷ []) hs) refl)
