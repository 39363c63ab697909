-- ===== src/Workers.antt =====
-- src/workers/: projections in a worker thread. The calls that Comlink passes on are the calls of the worker's projection, and the
-- world `W` is that of both threads.
pub mod ProxyProjection
pub mod Batches
