-- ===== src/Tests.antt =====
-- Concrete runs: each theorem applied to a small counter aggregate, its saga, or a few events.
mod Data
mod Helpers
mod Storing
mod Commands
mod Sagas
mod Delivery
mod Sqlite
mod Servers
mod Collections
mod Workers
mod Views
