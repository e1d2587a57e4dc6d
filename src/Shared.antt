-- ===== src/Shared.antt =====
-- What the services share (packages/shared/src): errors, events and the database connection.
pub mod Errors
pub mod Events
pub mod Database
pub mod Tracker
