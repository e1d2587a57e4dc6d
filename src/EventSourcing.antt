-- ===== src/EventSourcing.antt =====
-- Event sourcing (packages/shared/src/event-sourcing): aggregates, the account, the event store
-- and the repositories, with the laws of each in modules of their own.
pub mod Aggregate
pub mod Account
pub mod Store
pub mod Queries
pub mod Repository
pub mod AccountRepository
pub mod Numbering
pub mod Commands
pub mod Streams
pub mod Persistence
pub mod Reload
pub mod RoundTrip
pub mod Snapshots
pub mod History
