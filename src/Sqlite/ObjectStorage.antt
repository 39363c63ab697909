-- ===== src/Sqlite/ObjectStorage.antt =====
-- src/sqlite/SqliteObjectStorage.ts, with the connection open. An update reads a row and writes it in two
-- statements: `meanwhile` is what other processes do to the table between these. The function that makes the
-- new record may throw.
pub mod Records
pub mod Versions
pub mod Contract
use node_cqrs.Common.{
  ℕ, ◌+◌, suc, true, false, Option, none, some, Text, truthy, ◌==◌, if◌then◌else◌, Bool,
}
use node_cqrs.Common.Json.{Json}
use node_cqrs.Common.Tables.{Table, text_key, find, put, update_row, delete_row}
use node_cqrs.Messages.{Result, ok, err, plain_error, type_error, thrown, Error}

-- A row: `version INTEGER DEFAULT 1`
pub record Row : Type 0 where
  pub text : Text
  pub version : ℕ

abbrev pub Rows : Type 0
Rows = Table Text Row

-- The error of a violated primary key.
abbrev pub constraint_error : Error
constraint_error = thrown 19

-- `SET data = ?, version = version + 1 WHERE id = ? AND version = ?`
unfoldable pub next_version : Text → ℕ → Row → Option Row
next_version text version r =
    if r.version == version then some (record { text = text; version = r.version + 1 }) else none

-- `assertDefined(id)` before the rest of a method
unfoldable pub if_defined : {X : Type 0} → Text → (Rows → Result X × Rows) → Rows → Result X × Rows
if_defined id rest t = if truthy id then rest t else (err type_error, t)

module _ {V : Type 0} (guid : Text → Text) (json : Json V) where
  unfoldable pub parsed : Option Row → Option V
  parsed none = none
  parsed (some r) = some (json.parse r.text)

  -- The query of `get` and `getSync`
  unfoldable pub read : Text → Rows → Option V
  unfolding parsed
  read id t = parsed (find (guid id) t)

  unfoldable pub inserted : Text → V → Rows → Option Row → Result (Unit {0}) × Rows
  inserted key value t none =
      (ok tt, put key (record { text = json.stringify value; version = 1 }) t)
  inserted key value t (some r) = (err constraint_error, t)

  unfoldable pub create_sync : Text → V → Rows → Result (Unit {0}) × Rows
  unfolding inserted
  create_sync id value t = inserted (guid id) value t (find (guid id) t)

  -- The last statement of `#updateExistingSync`
  unfoldable pub write_version : Text → V → ℕ → Rows → Result (Unit {0}) × Rows
  write_version id value version t =
      let (changes, after) = update_row (guid id) (next_version (json.stringify value) version) t in
      if changes == 1 then (ok tt, after) else (err plain_error, after)

  unfoldable pub write_updated :
      Text → Result V → ℕ → (Rows → Rows) → Rows → Result (Unit {0}) × Rows
  write_updated id (err e) version meanwhile t = (err e, t)
  write_updated id (ok value) version meanwhile t = write_version id value version (meanwhile t)

  -- `#updateExistingSync`
  unfoldable pub update_existing :
      Text → Row → (V → Result V) → (Rows → Rows) → Rows → Result (Unit {0}) × Rows
  unfolding write_updated
  update_existing id r change meanwhile t =
      write_updated id (change (json.parse r.text)) r.version meanwhile t

  unfoldable pub updated :
      Text → Option Row → (V → Result V) → (Rows → Rows) → Rows → Result (Unit {0}) × Rows
  updated id none change meanwhile t = (err plain_error, t)
  updated id (some r) change meanwhile t = update_existing id r change meanwhile t

  unfoldable pub update_sync :
      Text → (V → Result V) → (Rows → Rows) → Rows → Result (Unit {0}) × Rows
  unfolding updated
  update_sync id change meanwhile t = updated id (find (guid id) t) change meanwhile t

  unfoldable pub create_first : Text → Result V → (Rows → Rows) → Rows → Result (Unit {0}) × Rows
  create_first id (err e) meanwhile t = (err e, t)
  create_first id (ok value) meanwhile t = create_sync id value (meanwhile t)

  unfoldable pub enforced :
      Text → Option Row → (Option V → Result V) → (Rows → Rows) → Rows → Result (Unit {0}) × Rows
  unfolding create_first
  enforced id none change meanwhile t = create_first id (change none) meanwhile t
  enforced id (some r) change meanwhile t = update_existing id r (λ v. change (some v)) meanwhile t

  unfoldable pub enforce_sync :
      Text → (Option V → Result V) → (Rows → Rows) → Rows → Result (Unit {0}) × Rows
  unfolding enforced
  enforce_sync id change meanwhile t = enforced id (find (guid id) t) change meanwhile t

  unfoldable pub delete_sync : Text → Rows → Result Bool × Rows
  delete_sync id t = let (changes, after) = delete_row (guid id) t in (ok (changes == 1), after)

  unfoldable pub get : Text → Rows → Result (Option V) × Rows
  unfolding if_defined
  get id = if_defined id (λ t. (ok (read id t), t))

  unfoldable pub create : Text → V → Rows → Result (Unit {0}) × Rows
  unfolding if_defined
  create id value = if_defined id (create_sync id value)

  unfoldable pub update : Text → (V → Result V) → (Rows → Rows) → Rows → Result (Unit {0}) × Rows
  unfolding if_defined
  update id change meanwhile = if_defined id (update_sync id change meanwhile)

  unfoldable pub update_enforcing_new :
      Text → (Option V → Result V) → (Rows → Rows) → Rows → Result (Unit {0}) × Rows
  unfolding if_defined
  update_enforcing_new id change meanwhile = if_defined id (enforce_sync id change meanwhile)

  unfoldable pub delete : Text → Rows → Result Bool × Rows
  unfolding if_defined
  delete id = if_defined id (delete_sync id)
