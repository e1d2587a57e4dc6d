-- ===== src/Gateway.antt =====
-- The gateway (packages/api-gateway): who may call what, and what reaches the services behind it.
pub mod Http
pub mod Guards
pub mod Proxy
pub mod Login
pub mod Access
pub mod Sessions
