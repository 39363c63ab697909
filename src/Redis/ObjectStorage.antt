-- ===== src/Redis/ObjectStorage.antt =====
-- src/redis/RedisObjectStorage.ts. A record is the JSON of its value and its version. `meanwhile` is what other clients do to
-- the server between the two commands of an attempt, by the number of attempts that are left. The script compares versions
-- in decimal form, which is to compare the numbers.
pub mod Updates
use node_cqrs.Common.{
  ℕ, zero, suc, ◌+◌, Bool, true, false, Option, none, some, Text, truthy, ◌==◌, ◌∷◌, ◌++◌,
  if◌then◌else◌,
}
use node_cqrs.Common.Json.{Json}
use node_cqrs.Messages.{Result, ok, err, plain_error, type_error}
use node_cqrs.Redis.{Server, get, set_nx}

-- `{ d, v }`
pub record Envelope (V : Type 0) : Type 0 where
  pub d : V
  pub v : ℕ

pub record Settings : Type 0 where
  pub table_name : Text
  pub max_retries : ℕ

-- What the script answers: 1, 0 and -1
pub data Answer : Type 0 where
  updated mismatch missing : Answer

-- `assertDefined(id)` before the rest of a method
unfoldable pub if_defined : {W X : Type 0} → Text → (W → Result X × W) → W → Result X × W
if_defined id rest w = if truthy id then rest w else (err type_error, w)

-- `this.#key(id)`
unfoldable pub key_of : Settings → Text → Text
key_of o id = o.table_name ++ b':' ∷ id

module _ {W V : Type 0} (server : Server W) (json : Json (Envelope V)) (o : Settings) where
  -- An empty text is falsy.
  unfoldable pub present_envelope : Option Text → Option (Envelope V)
  present_envelope none = none
  present_envelope (some raw) = if truthy raw then some (json.parse raw) else none

  unfoldable pub read : Text → W → Option (Envelope V)
  read id w = present_envelope (get server (key_of o id) w)

  data_of : Option (Envelope V) → Option V
  data_of none = none
  data_of (some envelope) = some envelope.d

  unfoldable pub fetch : Text → W → Result (Option V) × W
  unfolding if_defined data_of
  fetch id = if_defined id (λ w. (ok (data_of (read id w)), w))

  created : Bool × W → Result (Unit {0}) × W
  created (true, w) = (ok tt, w)
  created (false, w) = (err plain_error, w)

  unfoldable pub create : Text → V → W → Result (Unit {0}) × W
  unfolding if_defined created
  create id value =
      if_defined id (λ w.
        created (set_nx server (key_of o id) (json.stringify (record { d = value; v = 1 })) w))

  -- `SCRIPT_UPDATE_IF_VERSION`; every text is true in Lua.
  unfoldable pub update_if : Text → ℕ → Envelope V → Option Text → W → Answer × W
  update_if key version next none w = (missing, w)
  update_if key version next (some current) w =
      if (json.parse current).v == version
      then (updated, server.set key (json.stringify next) w)
      else (mismatch, w)

  unfoldable pub script_update_if_version : Text → ℕ → Envelope V → W → Answer × W
  script_update_if_version key version next w = update_if key version next (get server key w) w

  -- `updated`, with the value that the function returned
  abbrev pub next_of : V → Envelope V → Envelope V
  next_of value envelope = record { d = value; v = envelope.v + 1 }

  -- What follows the script in the loop of `update`: `retry` is the next round.
  unfoldable pub settle : (W → Result (Unit {0}) × W) → Answer × W → Result (Unit {0}) × W
  settle retry (updated, w) = (ok tt, w)
  settle retry (missing, w) = (err plain_error, w)
  settle retry (mismatch, w) = retry w

  -- What follows the reading in an attempt of `update`, with what the function came to
  unfoldable pub write_updated :
      Text
      → (W → W)
      → (W → Result (Unit {0}) × W)
      → Envelope V
      → Result V
      → W
      → Result (Unit {0}) × W
  write_updated id idle retry envelope (err e) w = (err e, w)
  write_updated id idle retry envelope (ok value) w =
      settle retry
        (script_update_if_version (key_of o id) envelope.v (next_of value envelope) (idle w))

  unfoldable pub attempt_on :
      Text
      → (V → Result V)
      → (W → W)
      → (W → Result (Unit {0}) × W)
      → Option (Envelope V)
      → W
      → Result (Unit {0}) × W
  unfolding write_updated
  attempt_on id change idle retry none w = (err plain_error, w)
  attempt_on id change idle retry (some envelope) w =
      write_updated id idle retry envelope (change envelope.d) w

  -- The loop of `update`, over the number of attempts that are left
  unfoldable pub attempts : Text → (V → Result V) → (ℕ → W → W) → ℕ → W → Result (Unit {0}) × W
  attempts id change meanwhile zero w = (err plain_error, w)
  attempts id change meanwhile (suc left) w =
      attempt_on id change (meanwhile left) (attempts id change meanwhile left) (read id w) w

  unfoldable pub update : Text → (V → Result V) → (ℕ → W → W) → W → Result (Unit {0}) × W
  unfolding if_defined
  update id change meanwhile = if_defined id (attempts id change meanwhile (suc o.max_retries))

  -- What follows the script in the loop of `updateEnforcingNew`: a missing record is tried again.
  unfoldable pub settle_new : (W → Result (Unit {0}) × W) → Answer × W → Result (Unit {0}) × W
  settle_new retry (updated, w) = (ok tt, w)
  settle_new retry (missing, w) = retry w
  settle_new retry (mismatch, w) = retry w

  unfoldable pub settle_created : (W → Result (Unit {0}) × W) → Bool × W → Result (Unit {0}) × W
  settle_created retry (true, w) = (ok tt, w)
  settle_created retry (false, w) = retry w

  unfoldable pub write_created :
      Text → (W → W) → (W → Result (Unit {0}) × W) → Result V → W → Result (Unit {0}) × W
  write_created id idle retry (err e) w = (err e, w)
  write_created id idle retry (ok value) w =
      settle_created retry
        (set_nx server (key_of o id) (json.stringify (record { d = value; v = 1 })) (idle w))

  unfoldable pub write_new :
      Text
      → (W → W)
      → (W → Result (Unit {0}) × W)
      → Envelope V
      → Result V
      → W
      → Result (Unit {0}) × W
  write_new id idle retry envelope (err e) w = (err e, w)
  write_new id idle retry envelope (ok value) w =
      settle_new retry
        (script_update_if_version (key_of o id) envelope.v (next_of value envelope) (idle w))

  unfoldable pub attempt_new :
      Text
      → (Option V → Result V)
      → (W → W)
      → (W → Result (Unit {0}) × W)
      → Option (Envelope V)
      → W
      → Result (Unit {0}) × W
  unfolding write_created write_new
  attempt_new id change idle retry none w = write_created id idle retry (change none) w
  attempt_new id change idle retry (some envelope) w =
      write_new id idle retry envelope (change (some envelope.d)) w

  unfoldable pub attempts_new :
      Text → (Option V → Result V) → (ℕ → W → W) → ℕ → W → Result (Unit {0}) × W
  attempts_new id change meanwhile zero w = (err plain_error, w)
  attempts_new id change meanwhile (suc left) w =
      attempt_new id change (meanwhile left) (attempts_new id change meanwhile left) (read id w) w

  unfoldable pub update_enforcing_new :
      Text → (Option V → Result V) → (ℕ → W → W) → W → Result (Unit {0}) × W
  unfolding if_defined
  update_enforcing_new id change meanwhile =
      if_defined id (attempts_new id change meanwhile (suc o.max_retries))

  -- `DEL` answers how many keys it removed.
  deleted : Option Text → Bool
  deleted none = false
  deleted (some raw) = true

  unfoldable pub delete : Text → W → Result Bool × W
  unfolding if_defined deleted
  delete id =
      if_defined id (λ w. (ok (deleted (get server (key_of o id) w)), server.del (key_of o id) w))
