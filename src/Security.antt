-- ===== src/Security.antt =====
-- The middleware against hostile requests (packages/shared/src/security/owasp-middleware.ts,
-- packages/shared/src/middleware, packages/shared/src/utils/error-handler.ts).
pub mod Json
pub mod Cleaning
pub mod Middleware
pub mod Signatures
