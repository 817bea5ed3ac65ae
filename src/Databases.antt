-- ===== src/Databases.antt =====
-- internal/databases/databases.go: the Postgres and Redis databases of the tenants.
pub mod Rows
pub mod Ports
pub mod Provision
pub mod Control
pub mod Least
pub mod Wait
pub mod Cleanup
pub mod Removal
pub mod Secrets
pub mod RoundTrip
pub mod Handlers
pub mod Answers
pub mod Tests
