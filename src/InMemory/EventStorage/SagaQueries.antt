-- ===== src/InMemory/EventStorage/SagaQueries.antt =====
-- The event stream of a saga in src/in-memory/InMemoryEventStorage.ts.
use node_cqrs.Common.{
  ◌≡◌, ◌≢◌, refl, ap, ◌∙◌, true, false, some, List, [], ◌∷◌, ◌++◌, Text, arith, text_eq_refl,
  passes_text, truthy_of_ne, append_assoc,
}
use node_cqrs.Common.Lists.{filter, length, take, slice, All, drop-append}
use node_cqrs.Messages.{Event, ok}
use node_cqrs.Utils.SagaId.{parse_saga_id}
use node_cqrs.InMemory.EventStorage.{
  EventStorage, get_saga_events, find_index, has_id, has_origin, event_id, or_missing, shift,
}

take-append : {A : Type 0} (xs ys : List A) → take (length xs) (xs ++ ys) ≡ xs
take-append [] ys = refl
take-append (x ∷ xs) ys = ap (λ zs. x ∷ zs) (take-append xs ys)

slice-append :
    {A : Type 0} (xs ys zs : List A) → slice (length xs) (length (xs ++ ys)) ((xs ++ ys) ++ zs) ≡ ys
slice-append xs ys zs = rw (slice, take-append (xs ++ ys) zs) (drop-append xs ys)

module _ {A : Type 0} where
  has_id_self : (id : Text) (e : Event A) → e.id ≡ some id → has_id id e ≡ true
  unfolding has_id
  has_id_self id e h = rw h (text_eq_refl id)

  has_id_other : (id : Text) (e : Event A) → e.id ≢ some id → has_id id e ≡ false
  unfolding has_id
  has_id_other id e h = ground (arith, h, passes_text id e.id)

  find_index-append :
      (id : Text) (xs ys : List (Event A)) (e : Event A)
      → All (λ f. f.id ≢ some id) xs
      → e.id ≡ some id
      → find_index (has_id id) (xs ++ e ∷ ys) ≡ some (length xs)
  unfolding find_index shift
  find_index-append id [] ys e apart own = rw (has_id_self id e own) refl
  find_index-append id (x ∷ xs) ys e apart own =
      rw (has_id_other id x apart.0, find_index-append id xs ys e apart.1 own) refl

  -- The stream of a saga before an event: of what was stored from the event that started the saga up to
  -- the given one, that which has the saga's origin, in the order of storage. This holds if
  -- the saga's identifier is taken apart into a descriptor and that origin, the given event has an identifier and
  -- that origin, both events are stored, and no earlier event has the identifier of either.
  pub get_saga_events_between :
      (saga_id d origin before_id : Text) (s : EventStorage A) (xs ys zs : List (Event A))
      (first e before : Event A)
      → parse_saga_id saga_id ≡ ok (d, origin)
      → s.events ≡ (xs ++ first ∷ ys) ++ e ∷ zs
      → All (λ f. f.id ≢ some origin) xs
      → first.id ≡ some origin
      → All (λ f. f.id ≢ some before_id) (xs ++ first ∷ ys)
      → e.id ≡ some before_id
      → before.id ≡ some before_id
      → before_id ≢ []
      → has_origin d origin before ≡ true
      → get_saga_events saga_id before s ≡ ok (filter (has_origin d origin) (first ∷ ys))
  unfolding get_saga_events event_id or_missing has_origin filter
  get_saga_events_between saga_id d origin before_id s xs ys zs first e before parsed stored hx hf
        hb he given named own =
      rw
        (
          given,
          truthy_of_ne before_id named,
          parsed,
          own,
          stored,
          ap (find_index (has_id origin)) (append_assoc xs (first ∷ ys) (e ∷ zs))
              ∙ find_index-append origin xs (ys ++ e ∷ zs) first hx hf,
          find_index-append before_id (xs ++ first ∷ ys) zs e hb he,
        )
        (ap (λ es. ok (filter (has_origin d origin) es)) (slice-append xs (first ∷ ys) (e ∷ zs)))
