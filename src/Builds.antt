-- ===== src/Builds.antt =====
-- internal/builds/builds.go and internal/builder/builder.go: the builds of the tenants' services.
pub mod Validate
pub mod Site
pub mod Job
pub mod Control
pub mod Steps
pub mod Accounting
pub mod Turns
pub mod Kept
pub mod Sound
pub mod Progress
pub mod Ending
pub mod Lifecycle
pub mod Refinement
pub mod LogBound
pub mod Vetted
pub mod Handlers
pub mod Statuses
pub mod Tests
