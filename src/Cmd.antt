-- ===== src/Cmd.antt =====
-- cmd/rdns-crawler/main.go: what the commands do around the packages.
pub mod Cursor
pub mod Setup
pub mod Reports
pub mod Sink
pub mod Run
pub mod Inspect
pub mod Passes
pub mod Printed
