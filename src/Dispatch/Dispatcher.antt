-- ===== src/Dispatch/Dispatcher.antt =====
-- src/EventDispatcher.ts: the pipelines by name, and which one gets a batch. `M` is the type of what
-- is passed along with the events; tracing and the limits on parallel batches are left out.
pub mod Routing
use node_cqrs.Common.{
  Bool, true, false, Option, none, some, List, [], ◌∷◌, ◌++◌, Text, Assoc, lookup, insert, has,
  codes, or_else, truthy, if◌then◌else◌,
}
use node_cqrs.Common.Lists.{any}
use node_cqrs.Messages.{
  Event, Envelope, Batch, Result, ok, err, Error, type_error, plain_error, is_event,
}
use node_cqrs.Dispatch.Pipeline.{Processor, Pipeline, Settled, add_processor, run}

abbrev pub default_pipeline : Text
default_pipeline = codes "default"

-- `meta`: the fields that the dispatcher and the processors read
pub record Meta : Type 0 where
  pub origin : Option Text
  pub ignore_concurrency_error : Bool

pub record Dispatcher (W A : Type 0) : Type 0 where
  pub pipelines : Assoc (Pipeline W A)
  pub router : Option (List (Event A) → Option Meta → Option Text)

module _ {A : Type 0} where
  -- `DEFAULT_ROUTER`
  unfoldable pub default_router : List (Event A) → Option Meta → Option Text
  default_router events none = none
  default_router events (some meta) = meta.origin

  unfoldable pub enveloped : Option Meta → List (Event A) → Batch A
  enveloped meta [] = []
  enveloped meta (e ∷ es) =
      record {
        event = some e;
        origin = elim meta [ none ↦ none | some m ↦ m.origin ];
        ignore_concurrency_error = elim meta [ none ↦ false | some m ↦ m.ignore_concurrency_error ];
      }
      ∷ enveloped meta es

  -- `isEventSet(events) && events.length > 0`
  abbrev pub is_event_set : List (Event A) → Bool
  is_event_set [] = true
  is_event_set (e ∷ es) = if is_event e then is_event_set es else false

then_rest :
    {T : Type 0} → (T → Result (Unit {0}) × T) → Result (Unit {0}) × T → Result (Unit {0}) × T
then_rest rest (ok u, t) = rest t
then_rest rest (err e, t) = (err e, t)

module _ {W A : Type 0} where
  -- `for (const p of processors) pipeline.addProcessor(p)`
  unfoldable pub add_each : List (Processor W A) → Pipeline W A → Result (Unit {0}) × Pipeline W A
  unfolding then_rest
  add_each [] q = (ok tt, q)
  add_each (p ∷ ps) q = then_rest (add_each ps) (add_processor p q)

  -- The pipeline under its name, unless adding to it threw
  registered :
      Text → Dispatcher W A → Result (Unit {0}) × Pipeline W A → Result (Unit {0}) × Dispatcher W A
  registered name d (err e, q) = (err e, d)
  registered name d (ok u, q) = (ok tt, record d { pipelines = insert name q d.pipelines })

  -- `addPipeline`
  unfoldable pub add_pipeline :
      Text → List (Processor W A) → Dispatcher W A → Result (Unit {0}) × Dispatcher W A
  unfolding registered
  add_pipeline name processors d =
      if truthy name
      then (if has name d.pipelines
          then (err plain_error, d)
          else registered name d
              (add_each processors (record { processors = []; processing = false })))
      else (err type_error, d)

  -- `addPipelineProcessor`
  unfoldable pub add_pipeline_processor :
      Processor W A → Option Text → Dispatcher W A → Result (Unit {0}) × Dispatcher W A
  unfolding registered
  add_pipeline_processor p name d = elim (lookup (or_else name default_pipeline) d.pipelines) [
    | none ↦ (err plain_error, d)
    | some q ↦ registered (or_else name default_pipeline) d (add_processor p q)
  ]

  -- The loop of `addPipelineProcessors`, until one throws
  add_each_to :
      List (Processor W A) → Option Text → Dispatcher W A → Result (Unit {0}) × Dispatcher W A
  unfolding then_rest
  add_each_to [] name d = (ok tt, d)
  add_each_to (p ∷ ps) name d = then_rest (add_each_to ps name) (add_pipeline_processor p name d)

  unfoldable pub add_pipeline_processors :
      List (Processor W A) → Option Text → Dispatcher W A → Result (Unit {0}) × Dispatcher W A
  unfolding add_each_to
  add_pipeline_processors [] name d = (err type_error, d)
  add_pipeline_processors (p ∷ ps) name d = add_each_to (p ∷ ps) name d

  abbrev pub desired : List (Event A) → Option Meta → Dispatcher W A → Text
  desired events meta d =
      or_else (elim d.router [ none ↦ none | some r ↦ r events meta ]) default_pipeline

  with_name : Text → Option (Pipeline W A) → Option (Text × Pipeline W A)
  with_name name none = none
  with_name name (some q) = some (name, q)

  -- The pipeline that gets the events, with its name.
  unfoldable pub route :
      List (Event A) → Option Meta → Dispatcher W A → Option (Text × Pipeline W A)
  unfolding with_name
  route events meta d = elim (lookup (desired events meta d) d.pipelines) [
    | none ↦ with_name default_pipeline (lookup default_pipeline d.pipelines)
    | some q ↦ some (desired events meta d, q)
  ]

  refused : Error → W → Settled W A
  refused e w = record { result = err e; log = []; world = w }

  -- `pipeline.push(envelope)`, which starts the processing of the pipeline
  pushed :
      Option (Text × Pipeline W A) → Batch A → Dispatcher W A → W → Settled W A × Dispatcher W A
  unfolding refused
  pushed none batch d w = (refused plain_error w, d)
  pushed (some (name, q)) batch d w = (
    run q.processors batch w,
    record d { pipelines = insert name (record q { processing = true }) d.pipelines },
  )

  unfoldable pub dispatch :
      List (Event A) → Option Meta → Dispatcher W A → W → Settled W A × Dispatcher W A
  unfolding refused pushed
  dispatch [] meta d w = (refused type_error w, d)
  dispatch (e ∷ es) meta d w =
      if is_event_set (e ∷ es)
      then pushed (route (e ∷ es) meta d) (enveloped meta (e ∷ es)) d w
      else (refused type_error w, d)
