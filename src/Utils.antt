-- ===== src/Utils.antt =====
-- src/utils: saga identifiers, the reference-counting map, and the execution lock.
pub mod SagaId
pub mod MapAssertable
pub mod Lock
pub mod OneTimeSubscription
