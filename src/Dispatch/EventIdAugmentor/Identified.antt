-- ===== src/Dispatch/EventIdAugmentor/Identified.antt =====
-- Which identifiers the events have after src/EventIdAugmentor.ts.
use node_cqrs.Common.{
  ◌≡◌, refl, sym, ap, subst, ◌∙◌, true, false, Option, none, some, [], ◌∷◌, Text, truthy, passes,
  Bool-cases, inl, inr, arith,
}
use node_cqrs.Messages.{Event, Envelope, Batch, Result, ok, err}
use node_cqrs.Dispatch.EventIdAugmentor.{process, identify, given, kept, then_rest}

has_own :
    (o : Option Text) → passes truthy o ≡ true → (id : Text) × (o ≡ some id) × (truthy id ≡ true)
has_own none h = absurd (cc h)
has_own (some id) h = (id, refl, h)

module _ {A : Type 0} where
  -- The event has an identifier, the one it had if it had one, and all else of it is as before.
  abbrev pub IdentifiedEvent : Option (Event A) → Option (Event A) → Type 0
  IdentifiedEvent none new = new ≡ none
  IdentifiedEvent (some e) new =
      (id : Text) × (new ≡ some (record e { id = some id }))
      × (passes truthy e.id ≡ true → e.id ≡ some id)
      × (truthy id ≡ true)

  -- The batches agree item by item, up to the identifiers that were missing.
  abbrev pub AreIdentified : Batch A → Batch A → Type 0
  AreIdentified [] [] = Unit
  AreIdentified [] (j ∷ new) = ⊥
  AreIdentified (i ∷ old) [] = ⊥
  AreIdentified (i ∷ old) (j ∷ new) =
      IdentifiedEvent i.event j.event
      × (j.origin ≡ i.origin)
      × (j.ignore_concurrency_error ≡ i.ignore_concurrency_error)
      × AreIdentified old new

module _ {W A : Type 0} (get_new_id : W → Result Text × W) where
  given-IdentifiedEvent :
      (e : Event A) (r : Result Text × W) (new : Option (Event A)) (w' : W)
      → passes truthy e.id ≡ false
      → ((id : Text) → r.0 ≡ ok id → truthy id ≡ true)
      → given get_new_id e r ≡ (ok new, w')
      → IdentifiedEvent (some e) new
  unfolding given
  given-IdentifiedEvent e (ok id, w) new w' lacks named h =
      (id, ground (arith, h), (λ own. absurd (cc (own, lacks))), named id refl)
  given-IdentifiedEvent e (err x, w) new w' lacks named h = absurd (cc h)

  identify_own :
      (e : Event A) (w : W)
      → passes truthy e.id ≡ true
      → identify get_new_id (some e) w ≡ (ok (some e), w)
  unfolding identify
  identify_own e w own = rw (identify, own) refl

  identify_new :
      (e : Event A) (w : W)
      → passes truthy e.id ≡ false
      → identify get_new_id (some e) w ≡ given get_new_id e (get_new_id w)
  unfolding identify
  identify_new e w lacks = rw (identify, lacks) refl

  own-IdentifiedEvent :
      (e : Event A) (new : Option (Event A)) (w w' : W)
      → passes truthy e.id ≡ true
      → ◌≡◌ {A = Result (Option (Event A)) × W} (ok (some e), w) (ok new, w')
      → IdentifiedEvent (some e) new
  own-IdentifiedEvent e new w w' own h =
      let (id, same, named) = has_own e.id own in
      (id, result_of h ∙ ap (λ o. some (record e { id = o })) same, (λ _. same), named)
    where
      result_of :
          ◌≡◌ {A = Result (Option (Event A)) × W} (ok (some e), w) (ok new, w') → new ≡ some e
      result_of h = cc h

  identify-IdentifiedEvent :
      (o new : Option (Event A)) (w w' : W)
      → ((u : W) (id : Text) → (get_new_id u).0 ≡ ok id → truthy id ≡ true)
      → identify get_new_id o w ≡ (ok new, w')
      → IdentifiedEvent o new
  unfolding identify
  identify-IdentifiedEvent none new w w' named h = cc h
  identify-IdentifiedEvent (some e) new w w' named h = elim (Bool-cases (passes truthy e.id)) [
    | inl own ↦ own-IdentifiedEvent e new w w' own (sym (identify_own e w own) ∙ h)
    | inr lacks ↦
        given-IdentifiedEvent e (get_new_id w) new w' lacks (named w)
          (sym (identify_new e w lacks) ∙ h)
  ]

  -- A loop that ends well has done this item and then the others.
  record Looped (item : Envelope A) (rest : W → Result (Batch A) × W)
      (r : Result (Option (Event A)) × W) (new : Batch A) (w' : W) : Type 0 where
    event : Option (Event A)
    between : W
    items : Batch A
    first : r ≡ (ok event, between)
    others : rest between ≡ (ok items, w')
    made : new ≡ record item { event = event } ∷ items

  kept-Looped :
      (item : Envelope A) (rest : W → Result (Batch A) × W) (event : Option (Event A)) (v : W)
      (q : Result (Batch A) × W) (new : Batch A) (w' : W)
      → rest v ≡ q
      → kept get_new_id item event q ≡ (ok new, w')
      → Looped item rest (ok event, v) new w'
  unfolding kept
  kept-Looped item rest event v (ok items, u) new w' done h = record {
    event = event;
    between = v;
    items = items;
    first = refl;
    others = done ∙ ap (λ x. (ok items, x)) (ap (λ p. p.1) h);
    made = cc h;
  }
  kept-Looped item rest event v (err x, u) new w' done h = absurd (cc h)

  then_rest-Looped :
      (item : Envelope A) (rest : W → Result (Batch A) × W) (r : Result (Option (Event A)) × W)
      (new : Batch A) (w' : W)
      → then_rest get_new_id item rest r ≡ (ok new, w')
      → Looped item rest r new w'
  unfolding then_rest
  then_rest-Looped item rest (ok event, v) new w' h =
      kept-Looped item rest event v (rest v) new w' refl h
  then_rest-Looped item rest (err x, v) new w' h = absurd (cc h)

  -- If the provider gives no empty identifiers, every event of a batch that was processed has an
  -- identifier: its own if it had one. Nothing else of the batch has changed.
  pub process-AreIdentified :
      (old new : Batch A) (w w' : W)
      → ((u : W) (id : Text) → (get_new_id u).0 ≡ ok id → truthy id ≡ true)
      → process get_new_id old w ≡ (ok new, w')
      → AreIdentified old new
  unfolding process
  process-AreIdentified [] new w w' named h = subst (AreIdentified []) {x = []} {y = new} (cc h) tt
  process-AreIdentified (item ∷ items) new w w' named h =
      let done =
        then_rest-Looped item (process get_new_id items) (identify get_new_id item.event w) new w'
          h in
      subst (AreIdentified (item ∷ items)) (sym done.made) (
        identify-IdentifiedEvent item.event done.event w done.between named done.first,
        refl,
        refl,
        process-AreIdentified items done.items done.between w' named done.others,
      )
