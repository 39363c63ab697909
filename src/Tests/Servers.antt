-- ===== src/Tests/Servers.antt =====
-- A server for Redis and a collection for MongoDB, small enough to compute with: they have the properties that the documentation
-- promises, and the lockers and storages work on them.
use node_cqrs.Common.{
  ℕ, ◌≡◌, refl, none, some, [], ◌∷◌, Text, codes, text_eq, if◌then◌else◌, arith, zero, suc, ◌+◌,
  ◌-◌,
}
use node_cqrs.Common.Json.{Json}
use node_cqrs.Messages.{Result, ok}
use node_cqrs.Projection.Once.{IsFaithful}
use node_cqrs.Redis.{Server, IsRedis, Cell, aged, with_ttl, set_px_nx, unless_there}
use node_cqrs.Redis.EventLocker as RedisEvents
use node_cqrs.Redis.EventLocker.Projecting as RedisProjecting
use node_cqrs.Redis.EventLocker.Projecting.{redis_event_locker-IsFaithful}
use node_cqrs.Redis.ViewLocker as RedisViews
use node_cqrs.Redis.ViewLocker.{try_lock}
use node_cqrs.Redis.ViewLocker.Exclusion.{
  attempt, release, pause, run, refusals, run-obtained, IsHeld,
}
use node_cqrs.Redis.ObjectStorage as RedisObjects
use node_cqrs.Redis.ObjectStorage.{Envelope, read, update}
use node_cqrs.Redis.ObjectStorage.Updates.{calm, again, update-settles}
use node_cqrs.Tests.Data.{added}

-- Keys with their texts and what is left of their time to live.
abbrev Cells : Type 0
Cells = Text → Cell

abbrev put : Text → Cell → Cells → Cells
put k c w j = if text_eq k j then c else w j

abbrev server : Server Cells
server = record {
  cell = λ k w. w k;
  set = λ k v w. put k (some (v, none)) w;
  set_px = λ k v n w. put k (some (v, some n)) w;
  pexpire = λ k n w. λ j. if text_eq k j then with_ttl n (w j) else w j;
  del = λ k w. put k none w;
  wait = λ d w. λ k. aged d (w k);
}

server-IsRedis : IsRedis server
server-IsRedis = record {
  cell-set = λ k j v w. refl;
  cell-set_px = λ k j v n w. refl;
  cell-pexpire = λ k j n w. refl;
  cell-del = λ k j w. refl;
  cell-wait = λ k d w. refl;
}

abbrev nothing : Cells
nothing k = none

abbrev digest : RedisEvents.Node ℕ
digest = record { stringify = λ e. codes "{}"; parse = λ s. added 0 (codes "1"); md5 = λ s. s }

abbrev params : RedisEvents.Params
params = record {
  key_prefix = none;
  projection_name = codes "p";
  schema_version = codes "1";
  event_lock_ttl = none;
}

redis_event_locker-IsFaithful_example :
    IsFaithful
      (RedisProjecting.redis_event_locker server server-IsRedis digest
        (RedisEvents.settings_of params))
      (RedisProjecting.IsProcessed server server-IsRedis digest (RedisEvents.settings_of params))
redis_event_locker-IsFaithful_example =
    redis_event_locker-IsFaithful server server-IsRedis digest params

abbrev views : RedisViews.Settings
views = record { lock_key = codes "k"; view_lock_ttl = 20 }

abbrev held : Cells
held = put (codes "k") (some (codes "a", some 20)) nothing

run-obtained_example :
    ((run server views (attempt (codes "b") ∷ pause 12 ∷ release (codes "b") ∷ []) held).0
      ≡ refusals server views (attempt (codes "b") ∷ pause 12 ∷ release (codes "b") ∷ []))
    × IsHeld server views
        (codes "a")
        (20 - 12)
        (run server views (attempt (codes "b") ∷ pause 12 ∷ release (codes "b") ∷ []) held).1
unfolding try_lock set_px_nx unless_there text_eq
run-obtained_example =
    run-obtained server views server-IsRedis (codes "a") nothing held
      (attempt (codes "b") ∷ pause 12 ∷ release (codes "b") ∷ []) refl (refl, (tt, (refl, tt)))
      (omega arith)

-- A number and its version as the text of two codes.
abbrev numbers : Json (Envelope ℕ)
numbers = record {
  stringify = λ e. e.d ∷ e.v ∷ [];
  parse = λ s. elim s [
    | [] ↦ record { d = 0; v = 0 }
    | d ∷ rest ↦ elim rest [ [] ↦ record { d = d; v = 0 } | v ∷ more ↦ record { d = d; v = v } ]
  ];
}

abbrev objects : ℕ → RedisObjects.Settings
objects retries = record { table_name = codes "t"; max_retries = retries }

abbrev one : ℕ → ℕ → Cells
one d v = put (codes "t:i") (some (d ∷ v ∷ [], none)) nothing

-- Another client writes in the first of two attempts.
abbrev busy_first : ℕ → Cells → Cells
busy_first zero w = w
busy_first (suc n) w = one 7 2

abbrev add_one : ℕ → Result ℕ
add_one n = ok (n + 1)

update-settles_example :
    ((update server numbers (objects 1) (codes "i") add_one busy_first (one 3 1)).0 ≡ ok tt)
    × (read server numbers
          (objects 1)
          (codes "i")
          (update server numbers (objects 1) (codes "i") add_one busy_first (one 3 1)).1
        ≡ some (record { d = 8; v = 3 }))
unfolding read text_eq RedisObjects.present_envelope RedisObjects.key_of
update-settles_example =
    update-settles server numbers (objects 1) (codes "i") add_one busy_first {w = one 3 1}
      {w' = one 7 2} {left = 0} server-IsRedis (λ e. refl) 7 8 2 refl
      (again {w = one 3 1} {w' = one 7 2} (record { d = 3; v = 1 }) 4 (7 ∷ 2 ∷ []) refl refl refl
        (λ h. omega (arith, h)) calm)
      refl refl refl refl
