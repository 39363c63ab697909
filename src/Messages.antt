-- ===== src/Messages.antt =====
-- Messages: src/interfaces/IMessage.ts, IEvent.ts, ICommand.ts, ISnapshotEvent.ts and
-- IDispatchPipelineProcessor.ts, with the errors that the library throws.
-- `A` is the type of the values that a message carries: its payload, and its context. An absent or
-- falsy payload is `none`. Identifiers are strings.
use node_cqrs.Common.{
  ℕ, Bool, true, false, ◌&&◌, Option, none, some, List, Assoc, Text, codes, text_eq, truthy,
  if◌then◌else◌,
}

-- `ConcurrencyError`, `TypeError`, a plain `Error` of the library, and whatever else is thrown.
pub data Error : Type 0 where
  concurrency_error type_error plain_error : Error
  thrown : ℕ → Error

pub data Result {ℓ} (A : Type ℓ) : Type ℓ where
  ok : A → Result A
  err : Error → Result A

-- `if (!test) throw error`
abbrev pub guard : Bool → Error → Result (Unit {0})
guard test error = if test then ok tt else err error

-- What follows a call only runs if the call returned.
infixl 5 ◌>>=◌
abbrev pub ◌>>=◌ {ℓ κ} : {B : Type ℓ} {C : Type κ} → Result B → (B → Result C) → Result C
err thrown_error >>= rest = err thrown_error
ok returned >>= rest = rest returned

infixl 5 ◌>>◌
abbrev pub ◌>>◌ {ℓ} : {C : Type ℓ} → Result (Unit {0}) → Result C → Result C
first >> second = first >>= λ done. second

-- `err instanceof ConcurrencyError`
unfoldable pub is_concurrency_error : Error → Bool
is_concurrency_error concurrency_error = true
is_concurrency_error _ = false

pub record Event (A : Type 0) : Type 0 where
  pub id : Option Text
  pub type : Text
  pub aggregate_id : Option Text
  pub aggregate_version : Option ℕ
  pub saga_origins : Option (Assoc Text)
  pub payload : Option A
  pub context : Option A

pub record Command (A : Type 0) : Type 0 where
  pub type : Text
  pub aggregate_id : Option Text
  pub saga_origins : Option (Assoc Text)
  pub payload : Option A
  pub context : Option A

abbrev pub snapshot_event_type : Text
snapshot_event_type = codes "snapshot"

abbrev pub defined {ℓ} : {B : Type ℓ} → Option B → Bool
defined none = false
defined (some b) = true

module _ {A : Type 0} where
  unfoldable pub is_event : Event A → Bool
  is_event e = truthy e.type

  unfoldable pub is_message : Command A → Bool
  is_message c = truthy c.type

  unfoldable pub is_snapshot_event : Event A → Bool
  unfolding is_event
  is_snapshot_event e = is_event e && text_eq e.type snapshot_event_type && defined e.payload

-- An item of a dispatch batch. `meta` stands for the fields that the library passes on unread.
pub record Envelope (A : Type 0) : Type 0 where
  pub event : Option (Event A)
  pub origin : Option Text
  pub ignore_concurrency_error : Bool

abbrev pub Batch : Type 0 → Type 0
Batch A = List (Envelope A)
