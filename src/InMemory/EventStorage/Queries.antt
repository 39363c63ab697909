-- ===== src/InMemory/EventStorage/Queries.antt =====
-- What the queries of src/in-memory/InMemoryEventStorage.ts return.
use node_cqrs.Common.{
  ◌≡◌, refl, Bool, true, false, Option, none, some, List, [], ◌∷◌, ◌++◌, Text, arith, text_eq_refl,
  Bool-cases, inl, inr, passes_text, truthy_of_ne, append-nil, ◌≢◌,
}
use node_cqrs.Common.Lists.{filter, last?, All, last?-append_one, last?-none}
use node_cqrs.Messages.{Event, ok}
use node_cqrs.InMemory.EventStorage.{
  EventStorage, Query, of_types, after_snapshot, missing_tail, get_aggregate_events,
  get_events_by_types, events_after, has_id, event_id, includes,
}

module _ {A : Type 0} where
  events_after-found :
      (types : List Text) (id : Text) (es : List (Event A))
      → events_after types id true es ≡ filter (λ e. includes types e.type) es
  unfolding events_after filter
  events_after-found types id [] = refl
  events_after-found types id (e ∷ es) = ground (arith, events_after-found types id es)

  events_after-skips :
      (types : List Text) (id : Text) (before : List (Event A)) (e : Event A)
      (after : List (Event A))
      → All (λ f. f.id ≢ some id) before
      → e.id ≡ some id
      → events_after types id false (before ++ e ∷ after)
        ≡ filter (λ f. includes types f.type) after
  unfolding events_after has_id
  events_after-skips types id [] e after h he =
      ground (arith, he, text_eq_refl id, events_after-found types id after)
  events_after-skips types id (f ∷ before) e after h he =
      ground (arith, h.0, events_after-skips types id before e after h.1 he, passes_text id f.id)

  -- The events after a stored one are all that were stored later and are of the types asked for,
  -- in the order of storage.
  pub get_events_after :
      (types : List Text) (s : EventStorage A) (before after : List (Event A)) (e : Event A)
      (id : Text)
      → s.events ≡ before ++ e ∷ after
      → All (λ f. f.id ≢ some id) before
      → e.id ≡ some id
      → id ≢ []
      → get_events_by_types types (some e) s ≡ ok (filter (λ f. includes types f.type) after)
  unfolding get_events_by_types event_id
  get_events_after types s before after e id hs hb he hid =
      rw (he, event_id, hs)
        (ground (arith, truthy_of_ne id hid, events_after-skips types id before e after hb he))

  last?-cons : (e x : Event A) (es : List (Event A)) → last? es ≡ some e → last? (x ∷ es) ≡ some e
  unfolding last?
  last?-cons e x [] h = cc
  last?-cons e x (y ∷ es) h = h

  last?-filter :
      (p : Event A → Bool) (e : Event A) (es : List (Event A))
      → last? es ≡ some e
      → p e ≡ true
      → last? (filter p es) ≡ some e
  unfolding last? filter
  last?-filter p e [] h hp = cc
  last?-filter p e (x ∷ []) h hp = ground (arith, hp)
  last?-filter p e (x ∷ y ∷ es) h hp =
      let ih = last?-filter p e (y ∷ es) h hp in
      elim (Bool-cases (p x)) [
        | inl keep ↦ rw keep (last?-cons e x (filter p (y ∷ es)) ih)
        | inr skip ↦ rw skip ih
      ]

  last?-with_tail :
      (q : Query) (all : List (Event A)) (o : Option (Event A))
      → q.tail_last ≡ true
      → last? all ≡ o
      → last? (filter (of_types q.event_types) all ++ missing_tail q all) ≡ o
  unfolding missing_tail
  last?-with_tail q all none h e = rw (last?-none all e) (unfold filter last? in refl)
  last?-with_tail q all (some x) h e = elim (Bool-cases (of_types q.event_types x)) [
    | inl yielded ↦
        rw (e, missing_tail, h, yielded)
          (rw append-nil (last?-filter (of_types q.event_types) x all e yielded))
    | inr missing ↦
        rw (e, missing_tail, h, missing) (last?-append_one (filter (of_types q.event_types) all) x)
  ]

  last?-all :
      (q : Query) (all : List (Event A)) (o : Option (Event A))
      → q.event_types ≡ none
      → last? all ≡ o
      → last? (filter (of_types q.event_types) all ++ missing_tail q all) ≡ o
  unfolding missing_tail of_types
  last?-all q all none h e = rw (last?-none all e) (unfold filter last? in refl)
  last?-all q all (some x) h e =
      rw (e, missing_tail, h)
        (elim (Bool-cases q.tail_last) [
          | inl t ↦ rw t (rw append-nil (last?-filter (λ e. true) x all e refl))
          | inr f ↦ rw f (rw append-nil (last?-filter (λ e. true) x all e refl))
        ])

  -- With no types asked for, the last event of the answer is that of the aggregate too.
  pub last?-get_aggregate_events_all :
      (id : Text) (q : Query) (s : EventStorage A)
      → q.event_types ≡ none
      → last? (get_aggregate_events id q s)
        ≡ last? (filter (after_snapshot id q.after_version) s.events)
  unfolding get_aggregate_events
  last?-get_aggregate_events_all id q s h = last?-all q _ _ h refl

  -- With `tail: 'last'` the last event of the answer is the aggregate's last event after the
  -- snapshot, whatever types are asked for.
  pub last?-get_aggregate_events :
      (id : Text) (q : Query) (s : EventStorage A)
      → q.tail_last ≡ true
      → last? (get_aggregate_events id q s)
        ≡ last? (filter (after_snapshot id q.after_version) s.events)
  unfolding get_aggregate_events
  last?-get_aggregate_events id q s h = last?-with_tail q _ _ h refl
