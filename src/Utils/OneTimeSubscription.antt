-- ===== src/Utils/OneTimeSubscription.antt =====
-- src/utils/setupOneTimeEmitterSubscription.ts, over an emitter of the world `W`: `on` and `off` are for the one handler that is set up. The
-- promise is what it resolves to, logging is left out.
use node_cqrs.Common.{
  ◌≡◌, refl, ap, sym, if◌then◌else◌, ◌∙◌, Bool, true, false, Option, none, some, List, [], ◌∷◌,
  Text, Bool-cases, inl, inr,
}
use node_cqrs.Messages.{Event, Result, ok, err}

pub record Settings (W A : Type 0) : Type 0 where
  pub on : Text → W → W
  pub off : Text → W → W
  pub message_types : List Text
  pub filter : Option (Event A → Bool)
  pub handler : Option (Event A → W → Result (Unit {0}) × W)

pub record Subscription (W A : Type 0) : Type 0 where
  pub handled : Bool
  pub resolved : Option (Event A)
  pub world : W

module _ {W A : Type 0} (o : Settings W A) where
  -- `!filter || filter(event)`
  unfoldable pub passes_filter : Option (Event A → Bool) → Event A → Bool
  passes_filter none e = true
  passes_filter (some test) e = test e

  -- One of the two loops over the types of messages
  unfoldable pub each_type : (Text → W → W) → List Text → W → W
  each_type f [] w = w
  each_type f (t ∷ ts) w = each_type f ts (f t w)

  unfoldable pub call_handler :
      Option (Event A → W → Result (Unit {0}) × W) → Event A → W → Result (Unit {0}) × W
  call_handler none e w = (ok tt, w)
  call_handler (some handler) e w = handler e w

  -- `resolve(event)`, which a handler that throws prevents
  unfoldable pub resolve : Event A → Result (Unit {0}) × W → Result (Unit {0}) × Subscription W A
  resolve e (ok u, w) = (ok u, record { handled = true; resolved = some e; world = w })
  resolve e (err x, w) = (err x, record { handled = true; resolved = none; world = w })

  unfoldable pub if_first : Event A → Subscription W A → Result (Unit {0}) × Subscription W A
  unfolding resolve call_handler each_type
  if_first e s =
      if s.handled
      then (ok tt, s)
      else resolve e (call_handler o.handler e (each_type o.off o.message_types s.world))

  -- `filteredHandler`
  unfoldable pub filtered_handler :
      Event A → Subscription W A → Result (Unit {0}) × Subscription W A
  filtered_handler e s = if passes_filter o.filter e then if_first e s else (ok tt, s)

  unfoldable pub setup : W → Subscription W A
  unfolding each_type
  setup w = record { handled = false; resolved = none; world = each_type o.on o.message_types w }

  -- The events that the emitter delivers, also after `off`: an emitter that is at it goes on with the handlers that it had.
  unfoldable pub deliver_all : List (Event A) → Subscription W A → Subscription W A
  deliver_all [] s = s
  deliver_all (e ∷ es) s = deliver_all es (filtered_handler e s).1

  -- The subscription after the events, with `filteredHandler` run for the first that passes the filter alone.
  unfoldable pub first_handled : List (Event A) → Subscription W A → Subscription W A
  first_handled [] s = s
  first_handled (e ∷ es) s =
      let later = first_handled es s in
      if passes_filter o.filter e
      then (resolve e (call_handler o.handler e (each_type o.off o.message_types s.world))).1
      else later

  filtered_handler-handled :
      (e : Event A) (s : Subscription W A) → s.handled ≡ true → (filtered_handler e s).1 ≡ s
  unfolding filtered_handler if_first
  filtered_handler-handled e s h = elim (Bool-cases (passes_filter o.filter e)) [
    | inl passing ↦ rw (passing, h) refl
    | inr failing ↦ rw failing refl
  ]

  deliver_all-handled :
      (es : List (Event A)) (s : Subscription W A) → s.handled ≡ true → deliver_all es s ≡ s
  unfolding deliver_all
  deliver_all-handled [] s h = refl
  deliver_all-handled (e ∷ es) s h =
      ap (deliver_all es) (filtered_handler-handled e s h) ∙ deliver_all-handled es s h

  resolve-handled : (e : Event A) (r : Result (Unit {0}) × W) → (resolve e r).1.handled ≡ true
  unfolding resolve
  resolve-handled e (ok u, w) = refl
  resolve-handled e (err x, w) = refl

  filtered_handler-first :
      (e : Event A) (s : Subscription W A)
      → s.handled ≡ false
      → passes_filter o.filter e ≡ true
      → (filtered_handler e s).1
        ≡ (resolve e (call_handler o.handler e (each_type o.off o.message_types s.world))).1
  unfolding filtered_handler if_first
  filtered_handler-first e s h passing = rw (passing, h) refl

  filtered_handler-other :
      (e : Event A) (s : Subscription W A)
      → passes_filter o.filter e ≡ false
      → (filtered_handler e s).1 ≡ s
  unfolding filtered_handler
  filtered_handler-other e s failing = rw failing refl

  -- A one-time subscription handles the first event that passes its filter and no other one, however many are delivered, also if its handler
  -- throws.
  pub deliver_all-first :
      (es : List (Event A)) (s : Subscription W A)
      → s.handled ≡ false
      → deliver_all es s ≡ first_handled es s
  unfolding deliver_all first_handled
  deliver_all-first [] s h = refl
  deliver_all-first (e ∷ es) s h = elim (Bool-cases (passes_filter o.filter e)) [
    | inl passing ↦
        let first =
          (resolve e (call_handler o.handler e (each_type o.off o.message_types s.world))).1 in
        ap (deliver_all es) (filtered_handler-first e s h passing)
        ∙ deliver_all-handled es first (resolve-handled e _)
        ∙ sym (rw passing refl)
    | inr failing ↦
        ap (deliver_all es) (filtered_handler-other e s failing)
        ∙ deliver_all-first es s h
        ∙ sym (rw failing refl)
  ]
