-- ===== src/Mongo/ObjectStorage.antt =====
-- src/mongodb/MongoObjectStorage.ts. `meanwhile` is what other clients do to the server between the two calls of an attempt, by the
-- number of attempts that are left.
pub mod Updates
use node_cqrs.Common.{
  ℕ, zero, suc, ◌+◌, Bool, true, false, Option, none, some, Text, truthy, ◌==◌, if◌then◌else◌,
  or_else,
}
use node_cqrs.Messages.{Result, ok, err, plain_error, type_error}
use node_cqrs.Mongo.{Collection}

-- `RecordDocument`
pub record Document (V : Type 0) : Type 0 where
  pub value : V
  pub version : ℕ

-- `assertDefined(id)` before the rest of a method
unfoldable pub if_defined : {W X : Type 0} → Text → (W → Result X × W) → W → Result X × W
if_defined id rest w = if truthy id then rest w else (err type_error, w)

-- `{ version }` and `$set: { data, version: version + 1 }`
unfoldable pub replaced : {V : Type 0} → V → ℕ → Document V → Option (Document V)
replaced value version d =
    if d.version == version then some (record { value = value; version = version + 1 }) else none

module _ {W V : Type 0} (c : Collection W (Document V)) where
  value_of : Option (Document V) → Option V
  value_of none = none
  value_of (some d) = some d.value

  unfoldable pub get : Text → W → Result (Option V) × W
  unfolding if_defined value_of
  get id = if_defined id (λ w. (ok (value_of (c.find_one id w)), w))

  created : Bool × W → Result (Unit {0}) × W
  created (true, w) = (ok tt, w)
  created (false, w) = (err plain_error, w)

  unfoldable pub create : Text → V → W → Result (Unit {0}) × W
  unfolding if_defined created
  create id value =
      if_defined id (λ w. created (c.insert_one id (record { value = value; version = 1 }) w))

  -- The end of an attempt: it returns, or the next one follows.
  unfoldable pub settle : (W → Result (Unit {0}) × W) → Bool × W → Result (Unit {0}) × W
  settle retry (true, w) = (ok tt, w)
  settle retry (false, w) = retry w

  unfoldable pub write : Text → V → ℕ → W → Bool × W
  write id value version w = c.find_one_and_update id (replaced value version) w

  unfoldable pub attempt_on :
      Text
      → (V → V)
      → (W → W)
      → (W → Result (Unit {0}) × W)
      → Option (Document V)
      → W
      → Result (Unit {0}) × W
  attempt_on id change idle retry none w = (err plain_error, w)
  attempt_on id change idle retry (some d) w =
      settle retry (write id (change d.value) d.version (idle w))

  -- The loop of `update`, over the number of attempts that are left
  unfoldable pub attempts : Text → (V → V) → (ℕ → W → W) → ℕ → W → Result (Unit {0}) × W
  attempts id change meanwhile zero w = (err plain_error, w)
  attempts id change meanwhile (suc left) w =
      attempt_on id change (meanwhile left) (attempts id change meanwhile left) (c.find_one id w) w

  unfoldable pub update : Option ℕ → Text → (V → V) → (ℕ → W → W) → W → Result (Unit {0}) × W
  unfolding if_defined
  update max_retries id change meanwhile =
      if_defined id (attempts id change meanwhile (suc (or_else max_retries 100)))

  unfoldable pub attempt_new :
      Text
      → (Option V → V)
      → (W → W)
      → (W → Result (Unit {0}) × W)
      → Option (Document V)
      → W
      → Result (Unit {0}) × W
  attempt_new id change idle retry none w =
      settle retry (c.insert_one id (record { value = change none; version = 1 }) (idle w))
  attempt_new id change idle retry (some d) w =
      settle retry (write id (change (some d.value)) d.version (idle w))

  unfoldable pub attempts_new : Text → (Option V → V) → (ℕ → W → W) → ℕ → W → Result (Unit {0}) × W
  attempts_new id change meanwhile zero w = (err plain_error, w)
  attempts_new id change meanwhile (suc left) w =
      attempt_new id change (meanwhile left) (attempts_new id change meanwhile left)
        (c.find_one id w) w

  -- The loop of `updateEnforcingNew`
  unfoldable pub update_enforcing_new :
      Option ℕ → Text → (Option V → V) → (ℕ → W → W) → W → Result (Unit {0}) × W
  unfolding if_defined
  update_enforcing_new max_retries id change meanwhile =
      if_defined id (attempts_new id change meanwhile (suc (or_else max_retries 100)))

  unfoldable pub delete : Text → W → Result Bool × W
  unfolding if_defined
  delete id =
      if_defined id (λ w. let (removed, after) = c.delete_one id w in (ok (removed == 1), after))
