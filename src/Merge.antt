-- ===== src/Merge.antt =====
-- internal/merge/merge.go: a re-crawl folded into its baseline.
pub mod Names
pub mod Load
pub mod Table
pub mod Spec
pub mod Shard
pub mod Refines
pub mod Group
pub mod Run
pub mod Pairs
pub mod Report
