-- ===== src/Outbox.antt =====
-- The transactional outbox (packages/shared/src/outbox).
pub mod Repository
pub mod Queue
pub mod Poller
pub mod Lifecycle
pub mod Timers
pub mod Delivery
pub mod Oldest
pub mod Rounds
