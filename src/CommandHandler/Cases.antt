-- ===== src/CommandHandler/Cases.antt =====
-- How an attempt of src/AggregateCommandHandler.ts can end.
use node_cqrs.Common.{ℕ, false, Option, List, Text, ◌≡◌, refl}
use node_cqrs.Messages.{Event, Command, Result, ok, err, Error}
use node_cqrs.Aggregate.{Aggregate}
use node_cqrs.Aggregate.Behaviour.{handle}
use node_cqrs.CommandHandler.{
  Settings, Handler, Attempt, returns, throws, write_back, dispatch_events, decide,
  reset_cache_entry, dispatched, handled, with_aggregate, get_aggregate, try_once,
}

module _ {W S A : Type 0} (t : Settings W S A) where
  -- A property of how an attempt ends, from the ways in which it can end.
  module _ {ℓ} (P : Attempt t × Handler W S A → Type ℓ) (id : Option Text) (c : Command A)
      (k : ℕ) where
    abbrev Stored : Handler W S A → Type ℓ
    Stored h =
        (a : Aggregate S A) (es r : List (Event A))
        → (dispatch_events t es false (write_back t id a h)).0 ≡ ok r
        → P (returns es, (dispatch_events t es false (write_back t id a h)).1)

    abbrev Refused : Handler W S A → Type ℓ
    Refused h =
        (a : Aggregate S A) (es : List (Event A)) (e : Error)
        → (dispatch_events t es false (write_back t id a h)).0 ≡ err e
        → P (
            decide t (t.should_retry e es k) e es
              (reset_cache_entry t id (dispatch_events t es false (write_back t id a h)).1))

    dispatched_cases :
        (es : List (Event A)) (r : Result (List (Event A))) (h : Handler W S A)
        → ((s : List (Event A)) → r ≡ ok s → P (returns es, h))
        → ((e : Error)
            → r ≡ err e
            → P (decide t (t.should_retry e es k) e es (reset_cache_entry t id h)))
        → P (dispatched t id es k (r, h))
    unfolding dispatched
    dispatched_cases es (ok s) h stored refused = stored s refl
    dispatched_cases es (err e) h stored refused = refused e refl

    handled_cases :
        (r : Result (List (Event A))) (a : Aggregate S A) (h : Handler W S A)
        → ((e : Error) → P (throws e, reset_cache_entry t id h))
        → Stored h
        → Refused h
        → P (handled t id k (r, a) h)
    unfolding handled
    handled_cases (err e) a h rejected stored refused = rejected e
    handled_cases (ok es) a h rejected stored refused =
        let d = dispatch_events t es false (write_back t id a h) in
        dispatched_cases es d.0 d.1 (stored a es) (refused a es)

    with_aggregate_cases :
        (r : Result (Aggregate S A)) (h : Handler W S A)
        → ((e : Error) → r ≡ err e → P (throws e, h))
        → ((e : Error) → P (throws e, reset_cache_entry t id h))
        → Stored h
        → Refused h
        → P (with_aggregate t id c k (r, h))
    unfolding with_aggregate
    with_aggregate_cases (err e) h missing rejected stored refused = missing e refl
    with_aggregate_cases (ok a) h missing rejected stored refused =
        let r = handle t.aggregate_type c a in handled_cases r.0 r.1 h rejected stored refused

    pub try_once_cases :
        (h : Handler W S A)
        → let got = get_aggregate t id h in
          ((e : Error) → got.0 ≡ err e → P (throws e, got.1))
          → ((e : Error) → P (throws e, reset_cache_entry t id got.1))
          → Stored got.1
          → Refused got.1
          → P (try_once t id c k h)
    unfolding try_once
    try_once_cases h missing rejected stored refused =
        let got = get_aggregate t id h in
        with_aggregate_cases got.0 got.1 missing rejected stored refused
