-- ===== src/Services.antt =====
-- internal/services: services in the database and their containers in Docker.
pub mod Validate
pub mod Rows
pub mod Launch
pub mod Deploy
pub mod Control
pub mod EnvVars
pub mod Frame
pub mod Slots
pub mod Isolation
pub mod Outcome
pub mod Launched
pub mod Atomic
pub mod Denied
pub mod Quota
pub mod Reset
pub mod Messages
pub mod Handlers
pub mod Statuses
pub mod Tests
pub mod StatusTests
