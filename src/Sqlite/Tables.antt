-- ===== src/Sqlite/Tables.antt =====
-- The tables that the lockers of src/sqlite share: queries/eventLockTableInit.ts and
-- queries/viewLockTableInit.ts, with the keys of their rows and the identifiers of src/sqlite/utils.
use node_cqrs.Common.{
  ℕ, Bool, true, ◌&&◌, Option, none, some, [], ◌∷◌, Text, text_eq, text_eq_iff, ◌≡◌, ◌↔◌,
  if◌then◌else◌, arith, ◌==◌,
}
use node_cqrs.Common.Tables.{Key, Table}
use node_cqrs.Messages.{Event}

-- What Node.js and its modules compute: `JSON.stringify` and `JSON.parse`, the MD5 digest in hexadecimal, and
-- `Buffer.from(s, 'hex')`.
pub record Node (A : Type 0) : Type 0 where
  pub stringify : Event A → Text
  pub parse : Text → Event A
  pub md5 : Text → Text
  pub from_hex : Text → Text

pub record ViewKey : Type 0 where
  pub projection_name : Text
  pub schema_version : Text

pub record EventKey : Type 0 where
  pub view : ViewKey
  pub event_id : Text

unfoldable pub same_view : ViewKey → ViewKey → Bool
same_view a b =
    text_eq a.projection_name b.projection_name && text_eq a.schema_version b.schema_version

unfoldable pub same_event : EventKey → EventKey → Bool
unfolding same_view
same_event a b = same_view a.view b.view && text_eq a.event_id b.event_id

pub same_view_iff : (a b : ViewKey) → (same_view a b ≡ true) ↔ (a ≡ b)
unfolding same_view
same_view_iff a b = ground (
  arith,
  text_eq_iff a.projection_name b.projection_name,
  text_eq_iff a.schema_version b.schema_version,
)

pub same_event_iff : (a b : EventKey) → (same_event a b ≡ true) ↔ (a ≡ b)
unfolding same_event
same_event_iff a b = ground (arith, same_view_iff a.view b.view, text_eq_iff a.event_id b.event_id)

instance abbrev pub view_key : Key ViewKey
view_key = record { same = same_view; same_iff = same_view_iff }

instance abbrev pub event_key : Key EventKey
event_key = record { same = same_event; same_iff = same_event_iff }

-- A row of `tbl_view_lock`
pub record ViewRow : Type 0 where
  pub locked_till : Option ℕ
  pub last_event : Option Text

-- A row of `tbl_event_lock`
pub record EventRow : Type 0 where
  pub processing_at : ℕ
  pub processed_at : Option ℕ

-- The database of the lockers: `now` is `unixepoch('now', 'subsec') * 1000`, which is also `Date.now()`.
pub record Database : Type 0 where
  pub now : ℕ
  pub view_locks : Table ViewKey ViewRow
  pub event_locks : Table EventKey EventRow

-- `str.replaceAll('-', '')`
unfoldable pub without_dashes : Text → Text
without_dashes [] = []
without_dashes (c ∷ s) = let rest = without_dashes s in if c == b'-' then rest else c ∷ rest

module _ {A : Type 0} (node : Node A) where
  -- `guid`
  unfoldable pub guid : Text → Text
  unfolding without_dashes
  guid s = node.from_hex (without_dashes s)

  -- `getEventId`
  unfoldable pub get_event_id : Event A → Text
  unfolding guid
  get_event_id e = elim e.id [ none ↦ guid (node.md5 (node.stringify e)) | some id ↦ guid id ]
