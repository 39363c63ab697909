-- ===== src/Dispatch/EventIdAugmentor.antt =====
-- src/EventIdAugmentor.ts: events without an identifier get one. The identifier provider is a step on the
-- world `W`, which may throw; a text that it returns is the string of the identifier.
pub mod Identified
use node_cqrs.Common.{
  Bool, true, false, Option, none, some, List, [], ◌∷◌, Text, truthy, passes, if◌then◌else◌,
}
use node_cqrs.Messages.{Event, Envelope, Batch, Result, ok, err, Error}

module _ {W A : Type 0} (get_new_id : W → Result Text × W) where
  given : Event A → Result Text × W → Result (Option (Event A)) × W
  given e (ok id, w) = (ok (some (record e { id = some id })), w)
  given e (err x, w) = (err x, w)

  -- One round of the loop.
  identify : Option (Event A) → W → Result (Option (Event A)) × W
  unfolding given
  identify none w = (ok none, w)
  identify (some e) w = if passes truthy e.id then (ok (some e), w) else given e (get_new_id w)

  kept : Envelope A → Option (Event A) → Result (Batch A) × W → Result (Batch A) × W
  kept item event (ok items, w) = (ok (record item { event = event } ∷ items), w)
  kept item event (err x, w) = (err x, w)

  then_rest :
      Envelope A → (W → Result (Batch A) × W) → Result (Option (Event A)) × W → Result (Batch A) × W
  unfolding kept
  then_rest item rest (ok event, w) = kept item event (rest w)
  then_rest item rest (err x, w) = (err x, w)

  -- The batch after the loop; it is the same batch, whose events are changed in place.
  unfoldable pub process : Batch A → W → Result (Batch A) × W
  unfolding identify then_rest
  process [] w = (ok [], w)
  process (item ∷ items) w = then_rest item (process items) (identify item.event w)
