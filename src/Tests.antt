-- ===== src/Tests.antt =====
-- The theorems at concrete inputs.
pub mod Data
pub mod Store
pub mod Files
pub mod Crawl
pub mod Lookups
pub mod Passes
pub mod Workers
pub mod Commands
pub mod Runs
pub mod Reports
