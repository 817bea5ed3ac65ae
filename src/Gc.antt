-- ===== src/Gc.antt =====
-- internal/gc/gc.go: what Docker holds for the platform and no row names any more.
pub mod Collect
pub mod Audit
pub mod Listing
pub mod Spared
pub mod Tests
