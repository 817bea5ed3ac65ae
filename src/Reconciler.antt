-- ===== src/Reconciler.antt =====
-- internal/reconciler/reconciler.go: brings the database in line with Docker.
pub mod Breaker
pub mod Window
pub mod Loop
pub mod Recover
pub mod Outage
pub mod Tests
