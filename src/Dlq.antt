-- ===== src/Dlq.antt =====
-- Dead letters (packages/shared/src/dlq): the table, the handler that gives an event up, and the
-- Kafka variant of it.
pub mod Repository
pub mod Reports
pub mod Handler
pub mod Attempts
pub mod Kafka
pub mod KafkaRetries
pub mod RetryRuns
