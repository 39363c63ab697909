-- ===== src/Dispatch.antt =====
-- src/EventDispatchPipeline.ts, src/EventDispatcher.ts and src/EventIdAugmentor.ts.
pub mod Pipeline
pub mod Dispatcher
pub mod EventIdAugmentor
