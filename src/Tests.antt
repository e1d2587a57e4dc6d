-- ===== src/Tests.antt =====
-- Runs of the code on small inputs, and the theorems at such inputs.
pub mod CustomerRuns
pub mod TransactionRuns
pub mod EventSourcingRuns
pub mod DeliveryRuns
pub mod MemoryRedis
pub mod CacheRuns
pub mod BusRuns
pub mod AiRuns
pub mod PlainTokens
pub mod GatewayRuns
pub mod ServiceRuns
pub mod SettlementRuns
