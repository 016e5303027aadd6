-- ===== src/Compare.antt =====
-- internal/compare/compare.go: two passes side by side.
pub mod Load
pub mod Join
pub mod Run
pub mod Final
pub mod Targets
pub mod Report
