-- ===== src/Mongo/ViewLocker.antt =====
-- src/mongodb/MongoViewLocker.ts. A token is what `randomUUID` made. The marker that callers wait for is set or not, and a
-- refresh, half the time to live ahead, is scheduled or not. The loop of `lock` runs on fuel, its number of attempts;
-- `idle` is what happens while it waits.
pub mod Holding
use node_cqrs.Common.{
  ℕ, zero, suc, ◌+◌, Bool, true, false, not, Option, none, some, Text, text_eq, ltb, ◌==◌,
  if◌then◌else◌, or_else, ◌++◌, ◌∷◌,
}
use node_cqrs.Messages.{Result, ok, err, plain_error}
use node_cqrs.Mongo.{Collection}
use node_cqrs.Mongo.EventLocker.{ViewLock, Database}

pub record Settings : Type 0 where
  pub lock_id : Text
  pub view_lock_ttl : ℕ

pub record Locker : Type 0 where
  pub lock_token : Option Text
  pub lock_marker : Bool
  pub lock_prolongation : Bool

unfoldable pub ready : Locker → Bool
ready l = not l.lock_marker

unfoldable pub schedule_lock_prolongation : Locker → Locker
schedule_lock_prolongation l = record l { lock_prolongation = true }

unfoldable pub cancel_lock_prolongation : Locker → Locker
cancel_lock_prolongation l = record l { lock_prolongation = false }

-- `lockedTill` null, absent, or `$lt: now`
unfoldable pub is_over : ℕ → Option ℕ → Bool
is_over now none = true
is_over now (some till) = ltb till now

-- The filter and the update of the claim
unfoldable pub claimed : ℕ → ℕ → Text → ViewLock → Option ViewLock
claimed now till token d =
    if is_over now d.locked_till
    then some (record d { locked_till = some till; token = some token })
    else none

-- Equality with a field that may be null
unfoldable pub same_token : Option Text → Option Text → Bool
same_token none none = true
same_token none (some t) = false
same_token (some s) none = false
same_token (some s) (some t) = text_eq s t

-- `{ token }` and `$set: { lockedTill }`
unfoldable pub prolonged : Option Text → ℕ → ViewLock → Option ViewLock
prolonged token till d =
    if same_token d.token token then some (record d { locked_till = some till }) else none

-- `{ token }` and `$set: { lockedTill: null, token: null }`
unfoldable pub released : Option Text → ViewLock → Option ViewLock
released token d =
    if same_token d.token token then some (record d { locked_till = none; token = none }) else none

module _ {W : Type 0} (db : Database W) (o : Settings) where
  -- A round of the loop of `lock`: the claim, and where it modified nothing the insertion
  unfoldable pub try_lock : Text → W → Bool × W
  try_lock token w =
      let till = db.now w + o.view_lock_ttl in
      let (modified, after) =
        db.view_locks.update_one o.lock_id (claimed (db.now w) till token) w in
      if modified == 1
      then (true, after)
      else db.view_locks.insert_one o.lock_id
          (record { locked_till = some till; token = some token; last_event = none }) after

  unfoldable pub attempt_lock : ℕ → (W → W) → Text → W → Option W
  attempt_lock zero idle token w = none
  attempt_lock (suc fuel) idle token w =
      let (acquired, after) = try_lock token w in
      let rest = attempt_lock fuel idle token (idle after) in if acquired then some after else rest

  unfoldable pub lock : ℕ → (W → W) → Text → Locker → W → Option (Locker × W)
  lock fuel idle token l w = elim (attempt_lock fuel idle token w) [
    | none ↦ none
    | some after ↦ some (
      schedule_lock_prolongation (record l { lock_marker = true; lock_token = some token }),
      after,
    )
  ]

  unfoldable pub prolong_lock : Locker → W → Result (Unit {0}) × Locker × W
  prolong_lock l w =
      let till = db.now w + o.view_lock_ttl in
      let (found, after) =
        db.view_locks.find_one_and_update o.lock_id (prolonged l.lock_token till) w in
      if found then (ok tt, schedule_lock_prolongation l, after) else (err plain_error, l, after)

  unfoldable pub unlock : Locker → W → Locker × W
  unlock l w =
      let free = cancel_lock_prolongation (record l { lock_marker = false }) in
      (
        record free { lock_token = none },
        (db.view_locks.find_one_and_update o.lock_id (released l.lock_token) w).1,
      )
