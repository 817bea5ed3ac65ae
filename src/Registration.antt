-- ===== src/Registration.antt =====
-- internal/api/tenants.go: the limiter of registrations and handleTenantRegister.
pub mod Limit
pub mod Email
pub mod Handler
pub mod Profile
pub mod Window
pub mod Atomic
pub mod Gatekeeper
pub mod Enrolled
pub mod Tests
