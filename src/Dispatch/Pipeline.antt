-- ===== src/Dispatch/Pipeline.antt =====
-- src/EventDispatchPipeline.ts: the way of one batch through the processors and on to the event
-- bus. The queue before the pipeline and `parallelPipe` are packages: a batch takes its steps in
-- order, and what other batches do meanwhile is in the steps of the world `W`. The bus is a log of
-- what was published; publishing is not awaited.
pub mod AllOrNothing
pub mod Snapshots
use node_cqrs.Common.{Bool, true, false, Option, none, some, List, [], ◌∷◌, ◌++◌, if◌then◌else◌}
use node_cqrs.Messages.{
  Event, Envelope, Batch, Result, ok, err, Error, plain_error, is_snapshot_event,
}

-- `IDispatchPipelineProcessor`
pub record Processor (W A : Type 0) : Type 0 where
  pub process : Batch A → W → Result (Batch A) × W
  pub revert : Option (Batch A → W → Result (Unit {0}) × W)

-- What `addProcessor` and `push` keep: the processors, and whether processing has started
pub record Pipeline (W A : Type 0) : Type 0 where
  pub processors : List (Processor W A)
  pub processing : Bool

unfoldable pub add_processor :
    {W A : Type 0} → Processor W A → Pipeline W A → Result (Unit {0}) × Pipeline W A
add_processor p q =
    if q.processing
    then (err plain_error, q)
    else (ok tt, record q { processors = q.processors ++ p ∷ [] })

-- `EventBatchEnvelope`, less the functions that settle its promise
pub record BatchEnvelope (A : Type 0) : Type 0 where
  pub items : Batch A
  pub error : Option Error

go_on : {W : Type 0} → (W → Result (Unit {0}) × W) → Result (Unit {0}) × W → Result (Unit {0}) × W
go_on rest (ok u, w) = rest w
go_on rest (err e, w) = (err e, w)

module _ {A : Type 0} where
  unfoldable pub published : Option (Event A) → List (Event A)
  published none = []
  published (some e) = if is_snapshot_event e then [] else e ∷ []

  -- The events of the batch that are published and returned.
  unfoldable pub publishable : Batch A → List (Event A)
  unfolding published
  publishable [] = []
  publishable (item ∷ items) = published item.event ++ publishable items

module _ (W A : Type 0) where
  -- How the promise of the batch is settled, what was published, and the world.
  pub record Settled : Type 0 where
    pub result : Result (List (Event A))
    pub log : List (Event A)
    pub world : W

module _ {W A : Type 0} where
  record_outcome : BatchEnvelope A → Result (Batch A) × W → BatchEnvelope A × W
  record_outcome envelope (ok items, w) = (record envelope { items = items }, w)
  record_outcome envelope (err e, w) = (record envelope { error = some e }, w)

  stage : Processor W A → Option Error → BatchEnvelope A → W → BatchEnvelope A × W
  unfolding record_outcome
  stage p (some e) envelope w = (envelope, w)
  stage p none envelope w = record_outcome envelope (p.process envelope.items w)

  -- The stages that `addProcessor` has built.
  unfoldable pub run_processors : List (Processor W A) → BatchEnvelope A → W → BatchEnvelope A × W
  unfolding stage
  run_processors [] envelope w = (envelope, w)
  run_processors (p ∷ ps) envelope w =
      let (envelope', w') = stage p envelope.error envelope w in run_processors ps envelope' w'

  revert_one : Option (Batch A → W → Result (Unit {0}) × W) → Batch A → W → Result (Unit {0}) × W
  revert_one none items w = (ok tt, w)
  revert_one (some f) items w = f items w

  -- `revert`, of every processor in order
  unfoldable pub revert : List (Processor W A) → Batch A → W → Result (Unit {0}) × W
  unfolding revert_one go_on
  revert [] items w = (ok tt, w)
  revert (p ∷ ps) items w = go_on (revert ps items) (revert_one p.revert items w)

  rejected : Error → Result (Unit {0}) × W → Settled W A
  rejected e (ok u, w) = record { result = err e; log = []; world = w }
  rejected e (err e', w) = record { result = err e'; log = []; world = w }

  settle : List (Processor W A) → Option Error → Batch A → W → Settled W A
  unfolding rejected
  settle ps none items w = record {
    result = ok (publishable items);
    log = publishable items;
    world = w;
  }
  settle ps (some e) items w = rejected e (revert ps items w)

  -- What becomes of one batch that is pushed.
  unfoldable pub run : List (Processor W A) → Batch A → W → Settled W A
  unfolding settle
  run ps items w =
      let (envelope, w') = run_processors ps (record { items = items; error = none }) w in
      settle ps envelope.error envelope.items w'
