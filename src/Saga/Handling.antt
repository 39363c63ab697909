-- ===== src/Saga/Handling.antt =====
-- What `handle` of src/AbstractSaga.ts returns.
use node_cqrs.Common.{
  ◌+◌, ◌≡◌, refl, sym, ap, ◌∙◌, true, false, Option, some, List, [], ◌∷◌, ◌++◌, if◌then◌else◌,
  arith, Bool-cases, inl, inr, append_assoc, append-nil,
}
use node_cqrs.Messages.{Event, Command, Result, ok, err, Error, type_error, is_event, is_message}
use node_cqrs.Aggregate.{get_optional_handler, mutate_state}
use node_cqrs.Saga.{
  Saga, Behaviour, done, fail, enqueues, SagaType, mutate, mutated, enqueue_raw, run, then_mutate,
  spliced, with_handler, handle,
}

-- The commands that a handler gets into the queue.
unfoldable pub queued : {S A : Type 0} → Behaviour S A → List (Command A)
queued done = []
queued (fail e) = []
queued (enqueues c rest) =
    let rejected = queued (rest (err type_error)) in
    let accepted = c ∷ queued (rest (ok tt)) in if is_message c then accepted else rejected

module _ {S A : Type 0} (t : SagaType S A) where
  enqueue_raw_accepts :
      (c : Command A) (s : Saga S A)
      → is_message c ≡ true
      → enqueue_raw t c s ≡ (ok tt, record s { messages = s.messages ++ c ∷ [] })
  unfolding enqueue_raw
  enqueue_raw_accepts c s good = rw good refl

  enqueue_raw_refuses :
      (c : Command A) (s : Saga S A)
      → is_message c ≡ false
      → enqueue_raw t c s ≡ (err type_error, s)
  unfolding enqueue_raw
  enqueue_raw_refuses c s bad = rw bad refl

  run_enqueues :
      (c : Command A) (rest : Result (Unit {0}) → Behaviour S A) (s : Saga S A)
      (r : Result (Unit {0})) (s' : Saga S A)
      → enqueue_raw t c s ≡ (r, s')
      → run t (enqueues c rest) s ≡ run t (rest r) s'
  unfolding run
  run_enqueues c rest s r s' h = ap (λ p. run t (rest p.0) p.1) h

  queued_accepts :
      (c : Command A) (rest : Result (Unit {0}) → Behaviour S A)
      → is_message c ≡ true
      → queued (enqueues c rest) ≡ c ∷ queued (rest (ok tt))
  unfolding queued
  queued_accepts c rest good = rw good refl

  queued_refuses :
      (c : Command A) (rest : Result (Unit {0}) → Behaviour S A)
      → is_message c ≡ false
      → queued (enqueues c rest) ≡ queued (rest (err type_error))
  unfolding queued
  queued_refuses c rest bad = rw bad refl

  run_messages_done :
      (s : Saga S A) → (run t done s).1 ≡ record s { messages = s.messages ++ queued {S = S} done }
  unfolding run queued
  run_messages_done s = ap (λ m. record s { messages = m }) (sym (append-nil s.messages))

  run_messages_fail :
      (e : Error) (s : Saga S A)
      → (run t (fail e) s).1 ≡ record s { messages = s.messages ++ queued {S = S} (fail e) }
  unfolding run queued
  run_messages_fail e s = ap (λ m. record s { messages = m }) (sym (append-nil s.messages))

  run_messages :
      (b : Behaviour S A) (s : Saga S A)
      → (run t b s).1 ≡ record s { messages = s.messages ++ queued b }
  run_messages done s = run_messages_done s
  run_messages (fail e) s = run_messages_fail e s
  run_messages (enqueues c rest) s = elim (Bool-cases (is_message c)) [
    | inl good ↦
        rw
          (
            run_enqueues c rest s (ok tt) (record s { messages = s.messages ++ c ∷ [] })
                (enqueue_raw_accepts c s good),
            queued_accepts c rest good,
          )
          (run_messages (rest (ok tt)) (record s { messages = s.messages ++ c ∷ [] })
            ∙ ap (λ m. record s { messages = m })
                (append_assoc s.messages (c ∷ []) (queued (rest (ok tt)))))
    | inr bad ↦
        rw
          (
            run_enqueues c rest s (err type_error) s (enqueue_raw_refuses c s bad),
            queued_refuses c rest bad,
          )
          (run_messages (rest (err type_error)) s)
  ]

  mutated_fields :
      (r : Result (Unit {0}) × Option S) (s : Saga S A)
      → ((mutated t r s).1.messages ≡ s.messages)
        × ((mutated t r s).1.id ≡ s.id)
        × ((mutated t r s).0 ≡ ok tt → (mutated t r s).1.version ≡ s.version + 1)
  unfolding mutated
  mutated_fields (ok u, state) s = (refl, refl, λ h. refl)
  mutated_fields (err e, state) s = (refl, refl, λ h. ground arith)

  mutate_fields :
      (event : Event A) (s : Saga S A)
      → ((mutate t event s).1.messages ≡ s.messages)
        × ((mutate t event s).1.id ≡ s.id)
        × ((mutate t event s).0 ≡ ok tt → (mutate t event s).1.version ≡ s.version + 1)
  unfolding mutate
  mutate_fields event s = elim (Bool-cases (is_event event)) [
    | inl good ↦ rw good (mutated_fields (mutate_state t.state_type event s.state) s)
    | inr bad ↦ rw bad (refl, refl, λ h. ground arith)
  ]

  abbrev pub Handled : Saga S A → List (Command A) → Result (List (Command A)) × Saga S A → Type 0
  Handled s cs (err e, s') = s'.handling ≡ false
  Handled s cs (ok r, s') =
      (r ≡ cs)
      × (s'.messages ≡ [])
      × (s'.handling ≡ false)
      × (s'.version ≡ s.version + 1)
      × (s'.id ≡ s.id)

  spliced-Handled :
      (s : Saga S A) (cs : List (Command A)) (m : Result (Unit {0}) × Saga S A)
      → m.1.messages ≡ cs
      → m.1.id ≡ s.id
      → (m.0 ≡ ok tt → m.1.version ≡ s.version + 1)
      → Handled s cs (spliced t m)
  unfolding spliced
  spliced-Handled s cs (ok u, s') hm hi hv = (hm, refl, refl, hv refl, hi)
  spliced-Handled s cs (err e, s') hm hi hv = refl

  then_mutate-Handled :
      (s : Saga S A) (cs : List (Command A)) (event : Event A) (r : Result (Unit {0}) × Saga S A)
      → r.1 ≡ record s { handling = true; messages = cs }
      → Handled s cs (spliced t (then_mutate t event r))
  unfolding then_mutate spliced
  then_mutate-Handled s cs event (err e, s') h = refl
  then_mutate-Handled s cs event (ok u, s') h =
      spliced-Handled s cs (mutate t event s') ((mutate_fields event s').0 ∙ ap (λ x. x.messages) h)
        ((mutate_fields event s').1 ∙ ap (λ x. x.id) h)
        (λ q. (mutate_fields event s').2 q ∙ ap (λ x. x.version + 1) h)

  -- A saga that takes an event is done with it afterwards, whether its handler threw or not. If
  -- it returned, the commands are exactly those that the handler queued for this event, in their
  -- order, none is left in the queue, and the version is one up.
  pub handle_commands :
      (event : Event A) (s : Saga S A) (h : Event A → Saga S A → Behaviour S A)
      → is_event event ≡ true
      → s.handling ≡ false
      → get_optional_handler t.handlers event.type ≡ ok (some h)
      → Handled s
          (queued (h event (record s { handling = true; messages = [] })))
          (handle t event s)
  unfolding handle with_handler
  handle_commands event s h good free found =
      rw (good, free, found, with_handler)
        (then_mutate-Handled s (queued (h event (record s { handling = true; messages = [] })))
          event
          (run t (h event (record s { handling = true; messages = [] }))
            (record s { handling = true; messages = [] }))
          (run_messages (h event (record s { handling = true; messages = [] }))
            (record s { handling = true; messages = [] })))
