-- ===== src/CommandHandler/Cache.antt =====
-- The cache of aggregates: a command takes its place among the users of the entry and gives it up
-- again, on every path.
use node_cqrs.Common.{
  ℕ, zero, suc, ◌+◌, ◌<◌, ◌≡◌, refl, subst, ◌∙◌, Bool, true, false, Option, none, some, List, [],
  ◌∷◌, Text, if◌then◌else◌, arith, inl, inr, Bool-cases, text_eq, text_eq_iff, text_eq_refl,
}
use node_cqrs.Messages.{Event, Command, Result, ok, err, Error, is_message}
use node_cqrs.Utils.MapAssertable.{usage}
use node_cqrs.Utils.MapAssertable.Counting.{
  IsCounted, release-IsCounted, get-IsCounted, assert-IsCounted, set_lazy-IsCounted, set-IsCounted,
  usage-get, usage-set, usage-set_lazy, usage-assert, usage-release,
}
use node_cqrs.Aggregate.{Aggregate}
use node_cqrs.CommandHandler.Cases.{try_once_cases}
use node_cqrs.CommandHandler.{
  Decision, retry, stop, ignore, Settings, Handler, Attempt, returns, throws, again, try_once,
  decide, forced, continue, attempt_loop, execute, finished, get_aggregate, dispatch_events,
  truthy_id, allocate_cache_entry, release_cache_entry, reset_cache_entry, write_back,
  restore_aggregate,
}

module _ {W S A : Type 0} (t : Settings W S A) (u : Text → ℕ) where
  -- While a command runs: the cache is counted, and its entries have the users `u`.
  pub record IsHeld (h : Handler W S A) : Type 0 where
    pub counted : IsCounted h.cache
    pub users : (k : Text) → usage h.cache k ≡ u k

  -- The command's own entry has a user.
  abbrev IsUsed : Option Text → Type 0
  IsUsed id = (k : Text) → id ≡ some k → 0 < u k

  get_aggregate-IsHeld :
      (id : Option Text) (h : Handler W S A) → IsHeld h → IsHeld (get_aggregate t id h).1
  unfolding get_aggregate
  get_aggregate-IsHeld none h v = record { counted = v.counted; users = v.users }
  get_aggregate-IsHeld (some i) h v = record {
    counted = get-IsCounted i h.cache h.world v.counted;
    users = λ k. usage-get i k h.cache h.world ∙ v.users k;
  }

  reset_cache_entry-IsHeld :
      (id : Option Text) (h : Handler W S A)
      → IsUsed id
      → IsHeld h
      → IsHeld (reset_cache_entry t id h)
  unfolding reset_cache_entry
  reset_cache_entry-IsHeld none h p v = v
  reset_cache_entry-IsHeld (some i) h p v = record {
    counted =
        set_lazy-IsCounted i (restore_aggregate t i) h.cache (rw (v.users i) (p i refl)) v.counted;
    users = λ k. usage-set_lazy i k (restore_aggregate t i) h.cache ∙ v.users k;
  }

  write_back-IsHeld :
      (id : Option Text) (a : Aggregate S A) (h : Handler W S A)
      → IsUsed id
      → IsHeld h
      → IsHeld (write_back t id a h)
  unfolding write_back
  write_back-IsHeld none a h p v = v
  write_back-IsHeld (some i) a h p v = record {
    counted = set-IsCounted i (ok a) h.cache (rw (v.users i) (p i refl)) v.counted;
    users = λ k. usage-set i k (ok a) h.cache ∙ v.users k;
  }

  dispatch_events-IsHeld :
      (es : List (Event A)) (ignored : Bool) (h : Handler W S A)
      → IsHeld h
      → IsHeld (dispatch_events t es ignored h).1
  unfolding dispatch_events
  dispatch_events-IsHeld [] ignored h v = v
  dispatch_events-IsHeld (e ∷ es) ignored h v = record { counted = v.counted; users = v.users }

  forced-IsHeld :
      (es : List (Event A)) (r : Result (List (Event A))) (h : Handler W S A)
      → IsHeld h
      → IsHeld (forced t es (r, h)).1
  unfolding forced
  forced-IsHeld es (ok s) h v = v
  forced-IsHeld es (err e) h v = v

  decide-IsHeld :
      (d : Decision) (e : Error) (es : List (Event A)) (h : Handler W S A)
      → IsHeld h
      → IsHeld (decide t d e es h).1
  unfolding decide
  decide-IsHeld stop e es h v = v
  decide-IsHeld retry e es h v = v
  decide-IsHeld ignore e es h v =
      let r = dispatch_events t es true h in
      forced-IsHeld es r.0 r.1 (dispatch_events-IsHeld es true h v)

  try_once-IsHeld :
      (id : Option Text) (c : Command A) (k : ℕ) (h : Handler W S A)
      → IsUsed id
      → IsHeld h
      → IsHeld (try_once t id c k h).1
  try_once-IsHeld id c k h p v =
      let got = get_aggregate-IsHeld id h v in
      try_once_cases t (λ r. IsHeld r.1) id c k h (λ e m. got)
        (λ e. reset_cache_entry-IsHeld id _ p got)
        (λ a es r d. dispatch_events-IsHeld es false _ (write_back-IsHeld id a _ p got))
        (λ a es e d. decide-IsHeld (t.should_retry e es k) e es _ (
          reset_cache_entry-IsHeld id _ p
            (dispatch_events-IsHeld es false _ (write_back-IsHeld id a _ p got))))

  abbrev HeldIf : Option (Result (List (Event A)) × Handler W S A) → Type 0
  HeldIf none = Unit
  HeldIf (some (r, h)) = IsHeld h

  continue-HeldIf :
      (rest : Handler W S A → Option (Result (List (Event A)) × Handler W S A))
      (r : Attempt t × Handler W S A)
      → IsHeld r.1
      → ((h : Handler W S A) → IsHeld h → HeldIf (rest h))
      → HeldIf (continue t rest r)
  unfolding continue
  continue-HeldIf rest (returns es, h) v go = v
  continue-HeldIf rest (throws e, h) v go = v
  continue-HeldIf rest (again, h) v go = go h v

  attempt_loop-HeldIf :
      (fuel : ℕ) (id : Option Text) (c : Command A) (k : ℕ) (h : Handler W S A)
      → IsUsed id
      → IsHeld h
      → HeldIf (attempt_loop t fuel id c k h)
  unfolding attempt_loop
  attempt_loop-HeldIf zero id c k h p v = tt
  attempt_loop-HeldIf (suc fuel) id c k h p v =
      continue-HeldIf (attempt_loop t fuel id c (suc k)) (try_once t id c k h)
        (try_once-IsHeld id c k h p v) (λ h' v'. attempt_loop-HeldIf fuel id c (suc k) h' p v')

module _ {W S A : Type 0} (t : Settings W S A) (h : Handler W S A) (v : IsCounted h.cache) where
  -- The users of each entry while a command for the identifier runs.
  abbrev users_with : Option Text → Text → ℕ
  users_with none k = usage h.cache k
  users_with (some i) k = if text_eq i k then usage h.cache i + 1 else usage h.cache k

  users_with-IsUsed : (id : Option Text) → IsUsed t (users_with id) id
  users_with-IsUsed none k e = absurd (cc e)
  users_with-IsUsed (some i) k e = ground (arith, e, text_eq_refl k)

  allocated : (id : Option Text) → IsHeld t (users_with id) (allocate_cache_entry t id h)
  unfolding allocate_cache_entry
  allocated none = record { counted = v; users = λ k. refl }
  allocated (some i) = record {
    counted = assert-IsCounted i (restore_aggregate t i) h.cache h.world v;
    users = λ k. usage-assert i k (restore_aggregate t i) h.cache h.world;
  }

  released :
      (id : Option Text) (h' : Handler W S A)
      → IsHeld t (users_with id) h'
      → IsHeld t (usage h.cache) (release_cache_entry t id h')
  unfolding release_cache_entry
  released none h' w = w
  released (some i) h' w = record {
    counted = release-IsCounted i h'.cache w.counted;
    users = λ k.
        ground (
          arith,
          usage-release i k h'.cache,
          w.users i,
          w.users k,
          text_eq_iff i k,
          text_eq_refl i,
        );
  }

  finished-HeldIf :
      (id : Option Text) (o : Option (Result (List (Event A)) × Handler W S A))
      → HeldIf t (users_with id) o
      → HeldIf t (usage h.cache) (finished t id o)
  unfolding finished
  finished-HeldIf id none w = tt
  finished-HeldIf id (some (r, h')) w = released id h' w

  execute-HeldIf : (fuel : ℕ) (c : Command A) → HeldIf t (usage h.cache) (execute t fuel c h)
  unfolding execute
  execute-HeldIf fuel c =
      let id = truthy_id t c.aggregate_id in
      elim (Bool-cases (is_message c)) [
        | inr bad ↦ rw bad (record { counted = v; users = λ k. refl })
        | inl good ↦ rw good (
            finished-HeldIf id (attempt_loop t fuel id c 0 (allocate_cache_entry t id h)) (
              attempt_loop-HeldIf t (users_with id) fuel id c 0 (allocate_cache_entry t id h)
                (users_with-IsUsed id) (allocated id)))
      ]

  -- Whatever a command comes to, an error included, each cache entry has as many users after it as
  -- before, and the keys of the cache are still the keys in use.
  pub execute_releases :
      (fuel : ℕ) (c : Command A) (r : Result (List (Event A))) (h' : Handler W S A)
      → execute t fuel c h ≡ some (r, h')
      → IsCounted h'.cache × ((k : Text) → usage h'.cache k ≡ usage h.cache k)
  execute_releases fuel c r h' e =
      let held = subst (HeldIf t (usage h.cache)) e (execute-HeldIf fuel c) in
      (held.counted, held.users)
