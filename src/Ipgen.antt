-- ===== src/Ipgen.antt =====
-- internal/ipgen/ipgen.go: which addresses a crawl visits, and in which order.
pub mod Address
pub mod Reserved
pub mod Shard
pub mod Walk
pub mod Random
pub mod Sample
