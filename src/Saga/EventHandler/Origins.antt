-- ===== src/Saga/EventHandler/Origins.antt =====
-- How a saga's events find their way back to it.
use node_cqrs.Common.{
  ◌≡◌, refl, true, false, not, Option, none, some, List, [], Text, lookup, truthy, present,
  lookup-insert_self, text_eq,
}
use node_cqrs.Common.Lists.{any}
use node_cqrs.Messages.{Event, Command, ok}
use node_cqrs.Saga.EventHandler.{
  Settings, place, own_id, given_origin, origin_from_event, is_starter_event, attach,
}

module _ {W S A : Type 0} (t : Settings W S A) where
  -- The event is not of a type that `startsWith` names, if the saga has such types.
  abbrev pub IsNotNamed : Option (List Text) → Text → Type 0
  IsNotNamed none type = Unit
  IsNotNamed (some types) type = any (λ u. text_eq u type) types ≡ false

  not_starter :
      (e : Event A) (o : Text)
      → origin_from_event t e ≡ some o
      → truthy o ≡ true
      → IsNotNamed t.starts_with e.type
      → is_starter_event t e ≡ false
  unfolding is_starter_event
  not_starter e o found ho named = go t.starts_with named
    where
      go :
          (types : Option (List Text))
          → IsNotNamed types e.type
          → elim types [
            | none ↦ not (present (origin_from_event t e))
            | some types ↦ any (λ u. text_eq u e.type) types
          ]
            ≡ false
      go none named = rw (found, ho) refl
      go (some types) named = named

  place_continuation :
      (e : Event A) (id o : Text)
      → truthy e.type ≡ true
      → e.id ≡ some id
      → truthy id ≡ true
      → origin_from_event t e ≡ some o
      → truthy o ≡ true
      → is_starter_event t e ≡ false
      → place t e ≡ ok (record { origin = o; starts = false })
  unfolding place own_id given_origin
  place_continuation e id o ht hi hi' found ho hs = rw (ht, hi, hi', hs, found, ho) refl

  attach_origin :
      (e : Event A) (origin : Text) (c : Command A)
      → c.saga_origins ≡ none
      → elim (attach t e origin c).saga_origins [
        | none ↦ none
        | some origins ↦ lookup t.saga_descriptor origins
      ]
        ≡ some origin
  unfolding attach
  attach_origin e origin c h = rw h (
      lookup-insert_self t.saga_descriptor origin
        (elim e.saga_origins [ none ↦ [] | some origins ↦ origins ]))

  carried_origin :
      (e caused : Event A) (origin : Text) (c : Command A)
      → caused.saga_origins ≡ (attach t e origin c).saga_origins
      → elim (attach t e origin c).saga_origins [
        | none ↦ none
        | some origins ↦ lookup t.saga_descriptor origins
      ]
        ≡ some origin
      → origin_from_event t caused ≡ some origin
  unfolding origin_from_event
  carried_origin e caused origin c h found = rw h found

  -- An event comes back to the saga whose command caused it: if a saga of the given origin sent a
  -- command without saga origins of its own, an event that carries the saga origins which that
  -- command got on the way, has a type and an id, and is of no type that `startsWith` names,
  -- belongs to that origin and starts no saga.
  pub place_attached :
      (e caused : Event A) (origin id : Text) (c : Command A)
      → c.saga_origins ≡ none
      → truthy origin ≡ true
      → caused.saga_origins ≡ (attach t e origin c).saga_origins
      → truthy caused.type ≡ true
      → caused.id ≡ some id
      → truthy id ≡ true
      → IsNotNamed t.starts_with caused.type
      → place t caused ≡ ok (record { origin = origin; starts = false })
  place_attached e caused origin id c own ho carried ht hi hi' named =
      let found = carried_origin e caused origin c carried (attach_origin e origin c own) in
      place_continuation caused id origin ht hi hi' found ho
        (not_starter caused origin found ho named)
