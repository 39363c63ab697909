-- ===== src/Tests/Helpers.antt =====
-- The locks, saga identifiers and the counted map, at work.
use node_cqrs.Common.{
  ℕ, ◌+◌, ◌≡◌, ◌≢◌, refl, none, some, [], Text, codes, ◌⊎◌, arith, has, insert, text_eq,
}
use node_cqrs.Messages.{ok, ◌>>=◌}
use node_cqrs.Utils.SagaId.{make_saga_id, parse_saga_id}
use node_cqrs.Utils.SagaId.RoundTrip.{parse-make}
use node_cqrs.Utils.MapAssertable.{MapAssertable}
use node_cqrs.Utils.Lock.{
  System, holding, waiting, enter, resume, after, init, acquires, resumes, Reach, here, next,
  lock_key, try_lock, is_locked,
}
use node_cqrs.Utils.Lock.Exclusion.{Reach-exclusive, no_overtaking}

parse-make_example :
    (make_saga_id (codes "x:y") (codes "7") >>= parse_saga_id) ≡ ok (codes "x:y", codes "7")
parse-make_example =
    parse-make (codes "x:y") (codes "7") (λ h. cc h) (λ h. cc h) ((λ h. ground arith), tt)

abbrev no_entries : MapAssertable ℕ ℕ
no_entries = record { entries = []; usage_counter = []; factories = [] }

abbrev tick : ℕ → ℕ × ℕ
tick w = (w, w + 1)

abbrev one_named : System
one_named = after init 0 (enter (lock_key (some (codes "a"))) init.lock)

abbrev two_named : System
two_named = after one_named 1 (enter (lock_key (some (codes "b"))) one_named.lock)

two_named-Reach : Reach init two_named
two_named-Reach =
    next (next here (acquires 0 (some (codes "a")) refl)) (acquires 1 (some (codes "b")) refl)

Reach-exclusive_example :
    (k : Text) × (l : Text) × (some (codes "a") ≡ some k) × (some (codes "b") ≡ some l) × (k ≢ l)
unfolding enter lock_key try_lock is_locked has insert text_eq
Reach-exclusive_example =
    Reach-exclusive two_named 0 1 (some (codes "a")) (some (codes "b")) two_named-Reach
      (λ h. ground arith) refl refl

abbrev global_waits : System
global_waits = after one_named 1 (enter (lock_key none) one_named.lock)

global_waits-Reach : Reach init global_waits
global_waits-Reach = next (next here (acquires 0 (some (codes "a")) refl)) (acquires 1 none refl)

abbrev global_tries : System
global_tries = after global_waits 1 (resume (global_waits.tasks 1) global_waits.lock)

no_overtaking_example :
    (global_waits.tasks 0 ≡ holding (some (codes "a")))
    ⊎ (◌≡◌ {A = ℕ} 0 1)
    ⊎ ((k : Text) × (global_waits.tasks 0 ≡ waiting (some k)))
unfolding enter lock_key try_lock is_locked has insert
no_overtaking_example =
    no_overtaking global_waits global_tries 1 0 (some (codes "a")) global_waits-Reach refl
      (resumes 1) refl
