-- ===== src/Ipgen/Shard.antt =====
-- internal/ipgen/ipgen.go: the addresses of one node.
pub mod Laws
use r_dns_crawler.Base.{ℕ, ◌+◌, ◌*◌, ◌/◌, ◌%◌, ◌^◌, bit_xor, Bool, false, leb, ◌==◌, if◌then◌else◌}

pub record ShardConfig : Type 0 where
  pub shards : ℕ
  pub shard_id : ℕ
  pub start_ip : ℕ
  pub limit : ℕ
  pub sample_threshold : ℕ

-- splitmix64 on uint64 values.
unfoldable pub mix64 : ℕ → ℕ
mix64 x =
    let x1 = (x + 0x9e3779b97f4a7c15) % 2 ^ 64 in
    let x2 = (bit_xor x1 (x1 / 2 ^ 30) * 0xbf58476d1ce4e5b9) % 2 ^ 64 in
    let x3 = (bit_xor x2 (x2 / 2 ^ 27) * 0x94d049bb133111eb) % 2 ^ 64 in bit_xor x3 (x3 / 2 ^ 31)

-- `uint32(h)` and `uint32(h>>32)` cut to 32 bits.
unfoldable pub in_shard_sample : ℕ → ShardConfig → Bool
unfolding mix64
in_shard_sample ip cfg =
    if cfg.sample_threshold == 0
    then ip % cfg.shards == cfg.shard_id
    else let h = mix64 ip in
      if leb cfg.sample_threshold (h % 2 ^ 32)
      then false
      else (h / 2 ^ 32) % 2 ^ 32 % cfg.shards == cfg.shard_id
