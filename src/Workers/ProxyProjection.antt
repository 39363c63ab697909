-- ===== src/Workers/ProxyProjection.antt =====
-- src/workers/WorkerProxyProjection.ts and the methods of src/workers/AbstractWorkerProjection.ts that it calls. The worker runs, and logging
-- is left out.
use node_cqrs.Common.{leb, [], ◌∷◌, ◌++◌, ℕ, Bool, true, false, Option, List, Text}
use node_cqrs.Common.Lists.{length}
use node_cqrs.Messages.{Event, Result, ok}
use node_cqrs.Projection.{
  Settings, ViewLocker, and_then, project_now, last_event, lock_view, unlock_view,
}

pub record ProxySettings (W A : Type 0) : Type 0 where
  -- `#remoteProjection`
  pub remote : Settings W A
  pub view_locker : Option (ViewLocker W)
  pub message_types : List Text
  -- `eventStore.getEventsByTypes`
  pub get_events_by_types : List Text → Option (Event A) → W → Result (List (Event A)) × W
  pub restore_batch_size : ℕ

-- `RESTORE_BATCH_SIZE`, unless it is set to another one
abbrev pub default_batch_size : ℕ
default_batch_size = 5000

module _ {W A : Type 0} where
  -- `AbstractWorkerProjection._projectBatch`
  unfoldable pub project_batch : Settings W A → List (Event A) → W → Result (Unit {0}) × W
  unfolding and_then
  project_batch t [] w = (ok tt, w)
  project_batch t (e ∷ es) w = and_then (λ u. project_batch t es) (project_now t e w)

  -- `AbstractWorkerProjection.getLastProjectedEvent`
  unfoldable pub get_last_projected_event : Settings W A → W → Result (Option (Event A)) × W
  get_last_projected_event t w = last_event t t.event_locker w

  -- The `if` of the loop, with the batch that it leaves
  unfoldable pub project_if_full :
      Settings W A → Bool → List (Event A) → W → Result (List (Event A)) × W
  unfolding and_then
  project_if_full t false batch w = (ok batch, w)
  project_if_full t true batch w = and_then (λ u w. (ok [], w)) (project_batch t batch w)

  -- `if (batch.length) await this._projectBatch(batch)`
  unfoldable pub project_remaining : Settings W A → List (Event A) → W → Result (Unit {0}) × W
  project_remaining t [] w = (ok tt, w)
  project_remaining t (e ∷ es) w = project_batch t (e ∷ es) w

  -- The loop of `_restore` and what comes after it
  unfoldable pub project_in_batches :
      Settings W A → ℕ → List (Event A) → List (Event A) → W → Result (Unit {0}) × W
  unfolding and_then
  project_in_batches t size [] batch w = project_remaining t batch w
  project_in_batches t size (e ∷ es) batch w =
      let batch' = batch ++ e ∷ [] in
      and_then (project_in_batches t size es)
        (project_if_full t (leb size (length batch')) batch' w)

  -- `_restore`
  unfoldable pub restore_now : ProxySettings W A → W → Result (Unit {0}) × W
  unfolding and_then
  restore_now p w =
      and_then (λ events. project_in_batches p.remote p.restore_batch_size events [])
        (and_then (p.get_events_by_types p.message_types) (get_last_projected_event p.remote w))

  unfoldable pub restore : ProxySettings W A → W → Result (Unit {0}) × W
  unfolding and_then
  restore p w =
      and_then (unlock_view p.remote p.view_locker)
        (and_then (λ u. restore_now p) (lock_view p.remote p.view_locker w))
