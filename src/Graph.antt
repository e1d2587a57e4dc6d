-- ===== src/Graph.antt =====
-- The GraphQL gateway (packages/graphql-gateway/src): circuit breakers and resolvers.
pub mod Values
pub mod Breakers
pub mod Resolvers
