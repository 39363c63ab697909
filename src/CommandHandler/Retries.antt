-- ===== src/CommandHandler/Retries.antt =====
-- How often a command is tried, and what its result says.
use node_cqrs.Common.{
  ℕ, zero, suc, ◌+◌, ◌≤◌, ◌<◌, ◌≡◌, ◌≢◌, refl, ap, subst, Bool, true, false, Option, none, some,
  List, [], ◌∷◌, Text, or_else, arith, ◌⊎◌, ◌↔◌, inl, inr, Bool-cases,
}
use native.Mathlib.Decide.{dec_lt}
use node_cqrs.Messages.{
  Event, Command, Result, ok, err, Error, type_error, is_message, is_concurrency_error,
}
use node_cqrs.CommandHandler.Cases.{try_once_cases}
use node_cqrs.CommandHandler.{
  RetryOptions, default, always, ignoring, attempts, config, custom, Decision, retry, stop, ignore,
  normalize_retry_resolver, default_max_retry_attempts, Settings, Handler, Attempt, returns, throws,
  again, try_once, decide, forced, continue, attempt_loop, execute, finished, dispatch_events,
  truthy_id, allocate_cache_entry, release_cache_entry,
}

-- The number of retries that an option allows; a function of the caller has no bound of its own.
unfoldable pub max_retries : {A : Type 0} → RetryOptions A → Option ℕ
max_retries default = some default_max_retry_attempts
max_retries (always true) = some default_max_retry_attempts
max_retries (always false) = some 0
max_retries ignoring = some 0
max_retries (attempts n) = some n
max_retries (config n ignore_after) = some (or_else n default_max_retry_attempts)
max_retries (custom f) = none

-- From the attempt after the last retry on, no error is retried. Before, every concurrency error
-- is, and no other error ever.
pub normalize_retry_resolver_bound :
    {A : Type 0} (o : RetryOptions A) (n : ℕ)
    → max_retries o ≡ some n
    → (e : Error) (es : List (Event A)) (k : ℕ)
    → (normalize_retry_resolver o e es k ≡ retry) ↔ ((is_concurrency_error e ≡ true) × (k < n))
unfolding max_retries normalize_retry_resolver
normalize_retry_resolver_bound default n h e es k = ground arith
normalize_retry_resolver_bound (always true) n h e es k = ground arith
normalize_retry_resolver_bound (always false) n h e es k = ground arith
normalize_retry_resolver_bound ignoring n h e es k = ground arith
normalize_retry_resolver_bound (attempts m) n h e es k = ground arith
normalize_retry_resolver_bound (config m i) n h e es k = ground arith
normalize_retry_resolver_bound (custom f) n h e es k = absurd (cc h)

module _ {W S A : Type 0} (t : Settings W S A) where
  -- What an attempt that is to be repeated says of its error.
  abbrev Retried : ℕ → Attempt t × Handler W S A → Type 0
  Retried k (returns es, h) = Unit
  Retried k (throws e, h) = Unit
  Retried k (again, h) = (e : Error) × (es : List (Event A)) × (t.should_retry e es k ≡ retry)

  forced-Retried :
      (k : ℕ) (es : List (Event A)) (r : Result (List (Event A))) (h : Handler W S A)
      → Retried k (forced t es (r, h))
  unfolding forced
  forced-Retried k es (ok s) h = tt
  forced-Retried k es (err e) h = tt

  decide-Retried :
      (d : Decision) (e : Error) (es : List (Event A)) (k : ℕ) (h : Handler W S A)
      → t.should_retry e es k ≡ d
      → Retried k (decide t d e es h)
  unfolding decide
  decide-Retried stop e es k h p = tt
  decide-Retried ignore e es k h p =
      let r = dispatch_events t es true h in forced-Retried k es r.0 r.1
  decide-Retried retry e es k h p = (e, es, p)

  try_once-Retried :
      (id : Option Text) (c : Command A) (k : ℕ) (h : Handler W S A)
      → Retried k (try_once t id c k h)
  try_once-Retried id c k h =
      try_once_cases t (Retried k) id c k h (λ e m. tt) (λ e. tt) (λ a es r d. tt)
        (λ a es e d. decide-Retried (t.should_retry e es k) e es k _ refl)

  -- Past the bound of the resolver the loop does not go on.
  abbrev StopsAt : ℕ → Type 0
  StopsAt n = (e : Error) (es : List (Event A)) (k : ℕ) → n ≤ k → t.should_retry e es k ≢ retry

  continue_total :
      (rest : Handler W S A → Option (Result (List (Event A)) × Handler W S A)) (k : ℕ)
      (r : Attempt t × Handler W S A)
      → Retried k r
      → ((e : Error) (es : List (Event A)) (h : Handler W S A)
          → t.should_retry e es k ≡ retry
          → (s : Result (List (Event A)) × Handler W S A) × (rest h ≡ some s))
      → (s : Result (List (Event A)) × Handler W S A) × (continue t rest r ≡ some s)
  unfolding continue
  continue_total rest k (returns es, h) p go = ((ok es, h), refl)
  continue_total rest k (throws e, h) p go = ((err e, h), refl)
  continue_total rest k (again, h) p go = go p.0 p.1 h p.2

  attempt_loop_total :
      (n : ℕ)
      → StopsAt n
      → (fuel : ℕ) (id : Option Text) (c : Command A) (k : ℕ) (h : Handler W S A) → n < fuel + k
      → 0 < fuel
      → (s : Result (List (Event A)) × Handler W S A) × (attempt_loop t fuel id c k h ≡ some s)
  unfolding attempt_loop
  attempt_loop_total n stops zero id c k h p q = elim q [ ]
  attempt_loop_total n stops (suc fuel) id c k h p q =
      continue_total (attempt_loop t fuel id c (suc k)) k (try_once t id c k h)
        (try_once-Retried id c k h)
        λ e es h' r. elim (dec_lt k n) [
          | yes more ↦ attempt_loop_total n stops fuel id c (suc k) h' (omega arith) (omega arith)
          | no over ↦ absurd (stops e es k (omega arith) r)
        ]

  normalize_StopsAt :
      (o : RetryOptions A) (n : ℕ)
      → max_retries o ≡ some n
      → t.should_retry ≡ normalize_retry_resolver o
      → StopsAt n
  normalize_StopsAt o n bound same e es k le retried =
      let limits = (normalize_retry_resolver_bound o n bound e es k).0 (rw same at retried) in
      omega (arith, limits.1)

  -- With a retry option that is no function, a command ends: one attempt more than the retries that
  -- the option allows is fuel enough, whatever the store does.
  pub execute_total :
      (o : RetryOptions A) (n : ℕ) (c : Command A) (h : Handler W S A)
      → max_retries o ≡ some n
      → t.should_retry ≡ normalize_retry_resolver o
      → (r : Result (List (Event A)) × Handler W S A) × (execute t (suc n) c h ≡ some r)
  unfolding execute
  execute_total o n c h bound same = elim (Bool-cases (is_message c)) [
    | inr bad ↦ rw bad ((err type_error, h), refl)
    | inl good ↦
        let id = truthy_id t c.aggregate_id in
        let ended =
          attempt_loop_total n (normalize_StopsAt o n bound same) (suc n) id c 0
            (allocate_cache_entry t id h) (omega arith) (omega arith) in
        rw good ((ended.0.0, release_cache_entry t id ended.0.1), ap (finished t id) ended.1)
  ]

  -- The events were taken by the event store, which then left the world as it is; with no events
  -- there was nothing to take.
  abbrev pub IsDispatched : List (Event A) → W → Type 0
  IsDispatched es world =
      (es ≡ [])
      ⊎ ((ignored : Bool) × (before : W) × (r : List (Event A)) × (t.event_store.dispatch es ignored
              before
            ≡ (ok r, world)))

  abbrev DispatchedIf : Attempt t × Handler W S A → Type 0
  DispatchedIf (returns es, h) = IsDispatched es h.world
  DispatchedIf (throws e, h) = Unit
  DispatchedIf (again, h) = Unit

  dispatch_events-IsDispatched :
      (es : List (Event A)) (ignored : Bool) (h : Handler W S A) (r : List (Event A))
      → (dispatch_events t es ignored h).0 ≡ ok r
      → IsDispatched es (dispatch_events t es ignored h).1.world
  unfolding dispatch_events
  dispatch_events-IsDispatched [] ignored h r e = inl refl
  dispatch_events-IsDispatched (x ∷ es) ignored h r e =
      inr
        (ignored, h.world, r, ap (λ s. (s, (t.event_store.dispatch (x ∷ es) ignored h.world).1)) e)

  forced-DispatchedIf :
      (es : List (Event A)) (r : Result (List (Event A))) (h : Handler W S A)
      → ((s : List (Event A)) → r ≡ ok s → IsDispatched es h.world)
      → DispatchedIf (forced t es (r, h))
  unfolding forced
  forced-DispatchedIf es (ok s) h p = p s refl
  forced-DispatchedIf es (err e) h p = tt

  decide-DispatchedIf :
      (d : Decision) (e : Error) (es : List (Event A)) (h : Handler W S A)
      → DispatchedIf (decide t d e es h)
  unfolding decide
  decide-DispatchedIf stop e es h = tt
  decide-DispatchedIf retry e es h = tt
  decide-DispatchedIf ignore e es h =
      let r = dispatch_events t es true h in
      forced-DispatchedIf es r.0 r.1 (dispatch_events-IsDispatched es true h)

  try_once-DispatchedIf :
      (id : Option Text) (c : Command A) (k : ℕ) (h : Handler W S A)
      → DispatchedIf (try_once t id c k h)
  try_once-DispatchedIf id c k h =
      try_once_cases t DispatchedIf id c k h (λ e m. tt) (λ e. tt)
        (λ a es r d. dispatch_events-IsDispatched es false _ r d)
        (λ a es e d. decide-DispatchedIf (t.should_retry e es k) e es _)

  -- What the loop returns, when it returns.
  abbrev Delivered : Option (Result (List (Event A)) × Handler W S A) → Type 0
  Delivered none = Unit
  Delivered (some (err e, h)) = Unit
  Delivered (some (ok es, h)) = IsDispatched es h.world

  continue-Delivered :
      (rest : Handler W S A → Option (Result (List (Event A)) × Handler W S A))
      (r : Attempt t × Handler W S A)
      → DispatchedIf r
      → ((h : Handler W S A) → Delivered (rest h))
      → Delivered (continue t rest r)
  unfolding continue
  continue-Delivered rest (returns es, h) p go = p
  continue-Delivered rest (throws e, h) p go = tt
  continue-Delivered rest (again, h) p go = go h

  attempt_loop-Delivered :
      (fuel : ℕ) (id : Option Text) (c : Command A) (k : ℕ) (h : Handler W S A)
      → Delivered (attempt_loop t fuel id c k h)
  unfolding attempt_loop
  attempt_loop-Delivered zero id c k h = tt
  attempt_loop-Delivered (suc fuel) id c k h =
      continue-Delivered (attempt_loop t fuel id c (suc k)) (try_once t id c k h)
        (try_once-DispatchedIf id c k h) (attempt_loop-Delivered fuel id c (suc k))

  release_world :
      (id : Option Text) (h : Handler W S A) → (release_cache_entry t id h).world ≡ h.world
  unfolding release_cache_entry
  release_world none h = refl
  release_world (some id) h = refl

  finished-Delivered :
      (id : Option Text) (o : Option (Result (List (Event A)) × Handler W S A))
      → Delivered o
      → Delivered (finished t id o)
  unfolding finished
  finished-Delivered id none p = tt
  finished-Delivered id (some (err e, h)) p = tt
  finished-Delivered id (some (ok es, h)) p = rw (release_world id h) p

  execute-Delivered :
      (fuel : ℕ) (c : Command A) (h : Handler W S A) → Delivered (execute t fuel c h)
  unfolding execute
  execute-Delivered fuel c h =
      let id = truthy_id t c.aggregate_id in
      elim (Bool-cases (is_message c)) [
        | inr bad ↦ rw bad tt
        | inl good ↦ rw good (
            finished-Delivered id (attempt_loop t fuel id c 0 (allocate_cache_entry t id h))
              (attempt_loop-Delivered fuel id c 0 (allocate_cache_entry t id h)))
      ]

  -- A command that succeeds has had exactly the events that it returns taken by the event store,
  -- and nothing was done to the store after that.
  pub execute-IsDispatched :
      (fuel : ℕ) (c : Command A) (h h' : Handler W S A) (es : List (Event A))
      → execute t fuel c h ≡ some (ok es, h')
      → IsDispatched es h'.world
  execute-IsDispatched fuel c h h' es e = subst Delivered e (execute-Delivered fuel c h)
