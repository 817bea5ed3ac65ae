-- ===== src/Backup.antt =====
-- cmd/ah/backup.go: the backup command.
pub mod Retention
pub mod Files
pub mod Command
pub mod Order
pub mod Kept
pub mod Displaced
pub mod Atomic
pub mod Literal
pub mod Tests
