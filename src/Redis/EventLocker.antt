-- ===== src/Redis/EventLocker.antt =====
-- src/redis/RedisEventLocker.ts, with `getEventId` of src/redis/utils/getEventId.ts.
pub mod Projecting
use node_cqrs.Common.{
  ℕ, Bool, true, false, Option, none, some, Text, codes, text_eq, truthy, ◌==◌, if◌then◌else◌,
  or_else, ◌++◌, ◌∷◌,
}
use node_cqrs.Messages.{Event, Result, ok, err, plain_error}
use node_cqrs.Redis.{Server, get}

-- What Node.js and its modules compute: `JSON.stringify`, `JSON.parse` and the MD5 digest in hexadecimal.
pub record Node (A : Type 0) : Type 0 where
  pub stringify : Event A → Text
  pub parse : Text → Event A
  pub md5 : Text → Text

pub record Params : Type 0 where
  pub key_prefix : Option Text
  pub projection_name : Text
  pub schema_version : Text
  pub event_lock_ttl : Option ℕ

-- The fields that the constructor sets
pub record Settings : Type 0 where
  pub event_lock_key_prefix : Text
  pub last_event_key : Text
  pub event_lock_ttl : ℕ

abbrev pub colon : ℕ
colon = b':'

abbrev pub processing : Text
processing = codes "processing"

abbrev pub processed : Text
processed = codes "processed"

-- `${keyPrefix}:${kind}:${projectionName}:${schemaVersion}`
unfoldable pub key_of : Text → Params → Text
key_of kind o =
    or_else o.key_prefix (codes "ncqrs")
    ++ colon ∷ (kind ++ colon ∷ (o.projection_name ++ colon ∷ o.schema_version))

unfoldable pub settings_of : Params → Settings
settings_of o = record {
  event_lock_key_prefix = key_of (codes "evtlock") o;
  last_event_key = key_of (codes "lastevent") o;
  event_lock_ttl = or_else o.event_lock_ttl 15000;
}

unfoldable pub event_lock_key : Settings → Text → Text
event_lock_key s id = s.event_lock_key_prefix ++ colon ∷ id

-- `getEventId`
unfoldable pub get_event_id : {A : Type 0} → Node A → Event A → Text
get_event_id node e = or_else e.id (node.md5 (node.stringify e))

module _ {W : Type 0} (server : Server W) where
  -- `SCRIPT_TRY_LOCK`; every text is true in Lua.
  try_lock_if : Text → ℕ → Option Text → W → ℕ × W
  try_lock_if key ttl (some val) w = (0, w)
  try_lock_if key ttl none w = (1, server.set_px key processing ttl w)

  unfoldable pub script_try_lock : Text → ℕ → W → ℕ × W
  unfolding try_lock_if
  script_try_lock key ttl w = try_lock_if key ttl (get server key w) w

  -- `SCRIPT_FINALIZE_LOCK`
  finalize_if : Text → Option Text → W → ℕ × W
  finalize_if key none w = (0, w)
  finalize_if key (some val) w =
      if text_eq val processing then (1, server.set key processed w) else (0, w)

  unfoldable pub script_finalize_lock : Text → W → ℕ × W
  unfolding finalize_if
  script_finalize_lock key w = finalize_if key (get server key w) w

module _ {W A : Type 0} (server : Server W) (node : Node A) (s : Settings) where
  unfoldable pub key_of_event : Event A → Text
  key_of_event e = event_lock_key s (get_event_id node e)

  unfoldable pub try_mark_as_projecting : Event A → W → Result Bool × W
  try_mark_as_projecting e w =
      let (result, after) = script_try_lock server (key_of_event e) s.event_lock_ttl w in
      (ok (result == 1), after)

  unfoldable pub mark_as_projected : Event A → W → Result (Unit {0}) × W
  mark_as_projected e w =
      let (result, after) = script_finalize_lock server (key_of_event e) w in
      if result == 1 then (ok tt, after) else (err plain_error, after)

  unfoldable pub mark_as_last_event : Event A → W → Result (Unit {0}) × W
  mark_as_last_event e w = (ok tt, server.set s.last_event_key (node.stringify e) w)

  parsed : Option Text → Option (Event A)
  parsed none = none
  parsed (some raw) = if truthy raw then some (node.parse raw) else none

  unfoldable pub get_last_event : W → Result (Option (Event A)) × W
  unfolding parsed
  get_last_event w = (ok (parsed (get server s.last_event_key w)), w)
