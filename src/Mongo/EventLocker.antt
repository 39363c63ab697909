-- ===== src/Mongo/EventLocker.antt =====
-- src/mongodb/MongoEventLocker.ts, with `getEventId` of src/mongodb/utils/getEventId.ts. `Date` is the clock, in milliseconds.
pub mod Projecting
use node_cqrs.Common.{
  ℕ, ◌+◌, Bool, true, false, Option, none, some, Text, truthy, ltb, ◌==◌, if◌then◌else◌, or_else,
  ◌++◌, ◌∷◌,
}
use node_cqrs.Messages.{Event, Result, ok, err, plain_error}
use node_cqrs.Mongo.{Collection}

-- What Node.js and its modules compute: `JSON.stringify`, `JSON.parse` and the MD5 digest in hexadecimal.
pub record Node (A : Type 0) : Type 0 where
  pub stringify : Event A → Text
  pub parse : Text → Event A
  pub md5 : Text → Text

-- `EventLockDocument`; a field that is null or absent is none.
pub record EventLock : Type 0 where
  pub processing_at : Option ℕ
  pub processed_at : Option ℕ

-- `ViewLockDocument`
pub record ViewLock : Type 0 where
  pub locked_till : Option ℕ
  pub token : Option Text
  pub last_event : Option Text

pub record Database (W : Type 0) : Type 0 where
  pub now : W → ℕ
  pub event_locks : Collection W EventLock
  pub view_locks : Collection W ViewLock

pub record Settings : Type 0 where
  pub projection_name : Text
  pub schema_version : Text
  pub event_lock_ttl : Option ℕ

-- `${projectionName}:${schemaVersion}`, the prefix of the locks and the key of the view
unfoldable pub view_lock_id : Settings → Text
view_lock_id o = o.projection_name ++ b':' ∷ o.schema_version

unfoldable pub ttl_of : Settings → ℕ
ttl_of o = or_else o.event_lock_ttl 15000

unfoldable pub event_lock_id : Settings → Text → Text
event_lock_id o id = view_lock_id o ++ b':' ∷ id

-- `getEventId`
unfoldable pub get_event_id : {A : Type 0} → Node A → Event A → Text
get_event_id node e = or_else e.id (node.md5 (node.stringify e))

-- `processingAt` null, absent, or `$lt: now - ttl`, over the integers
unfoldable pub has_expired : ℕ → ℕ → Option ℕ → Bool
has_expired ttl now none = true
has_expired ttl now (some at) = ltb (at + ttl) now

-- The filter and the update of the claim
unfoldable pub claimed : ℕ → ℕ → EventLock → Option EventLock
claimed ttl now d = elim d.processed_at [
  | none ↦
      if has_expired ttl now d.processing_at
      then some (record { processing_at = some now; processed_at = none })
      else none
  | some t ↦ none
]

-- `{ processedAt: null }` and `$set: { processedAt: now }`
unfoldable pub finished : ℕ → EventLock → Option EventLock
finished now d = elim d.processed_at [
  | none ↦ some (record d { processed_at = some now })
  | some t ↦ none
]

module _ {W A : Type 0} (db : Database W) (node : Node A) (o : Settings) where
  unfoldable pub key_of_event : Event A → Text
  key_of_event e = event_lock_id o (get_event_id node e)

  unfoldable pub insert_lock : Event A → ℕ → W → Result Bool × W
  insert_lock e now w =
      let (inserted, after) =
        db.event_locks.insert_one (key_of_event e)
          (record { processing_at = some now; processed_at = none }) w in
      (ok inserted, after)

  unfoldable pub try_mark_as_projecting : Event A → W → Result Bool × W
  try_mark_as_projecting e w =
      let now = db.now w in
      let (modified, after) =
        db.event_locks.update_one (key_of_event e) (claimed (ttl_of o) now) w in
      if modified == 1 then (ok true, after) else insert_lock e now after

  unfoldable pub mark_as_projected : Event A → W → Result (Unit {0}) × W
  mark_as_projected e w =
      let (found, after) =
        db.event_locks.find_one_and_update (key_of_event e) (finished (db.now w)) w in
      if found then (ok tt, after) else (err plain_error, after)

  unfoldable pub mark_as_last_event : Event A → W → Result (Unit {0}) × W
  mark_as_last_event e w =
      let json = node.stringify e in
      (
        ok tt,
        db.view_locks.upsert_one (view_lock_id o)
            (record { locked_till = none; token = none; last_event = some json })
            (λ d. record d { last_event = some json }) w,
      )

  parsed : Option ViewLock → Option (Event A)
  parsed none = none
  parsed (some d) = elim d.last_event [
    | none ↦ none
    | some json ↦ if truthy json then some (node.parse json) else none
  ]

  unfoldable pub get_last_event : W → Result (Option (Event A)) × W
  unfolding parsed
  get_last_event w = (ok (parsed (db.view_locks.find_one (view_lock_id o) w)), w)
