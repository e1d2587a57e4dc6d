-- ===== src/Transaction.antt =====
-- The transaction service (packages/transaction-service/src): its tables and repositories, the
-- service that accepts requests, the saga that decides them, and the projection of balances.
pub mod Repository
pub mod Service
pub mod Saga
pub mod Settling
pub mod Decisions
pub mod Storing
pub mod Requests
pub mod Projection
pub mod Balances
