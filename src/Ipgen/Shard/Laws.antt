-- ===== src/Ipgen/Shard/Laws.antt =====
-- internal/ipgen/ipgen.go: the nodes that an address belongs to.
use r_dns_crawler.Base.{
  ℕ, ◌+◌, ◌/◌, ◌%◌, ◌^◌, ◌<◌, ◌≡◌, zero, suc, refl, length, leb, Bool, true, false, ltb, ◌==◌,
  arith, if◌then◌else◌, Bool-cases, inl, inr,
}
use r_dns_crawler.Ipgen.Reserved.Laws.{picks, picks_congr}
use r_dns_crawler.Ipgen.Shard.{ShardConfig, mix64, in_shard_sample}

-- The node an address falls to.
abbrev pub owner : ℕ → ShardConfig → ℕ
owner ip cfg =
    if cfg.sample_threshold == 0 then ip % cfg.shards else mix64 ip / 2 ^ 32 % 2 ^ 32 % cfg.shards

abbrev pub in_sample : ℕ → ShardConfig → Bool
in_sample ip cfg =
    if cfg.sample_threshold == 0 then true else ltb (mix64 ip % 2 ^ 32) cfg.sample_threshold

count_one :
    (o v n : ℕ)
    → length (picks (λ id. o == id) v n) ≡ (if leb v o then if ltb o (v + n) then 1 else 0 else 0)
unfolding picks
count_one o v zero = ground arith
count_one o v (suc n) = ground (arith, count_one o (v + 1) n)

count_none : (v n : ℕ) → length (picks (λ id. false) v n) ≡ 0
unfolding picks
count_none v zero = refl
count_none v (suc n) = count_none (v + 1) n

member_lem :
    (ip id : ℕ) (cfg : ShardConfig)
    → in_shard_sample ip (record cfg { shard_id = id })
      ≡ (if in_sample ip cfg then owner ip cfg == id else false)
unfolding in_shard_sample
member_lem ip id cfg = elim (Bool-cases (cfg.sample_threshold == 0)) [
  | inl whole ↦ ground arith
  | inr sampled ↦ ground arith
]

owner-lt : (ip : ℕ) (cfg : ShardConfig) → 0 < cfg.shards → owner ip cfg < cfg.shards
owner-lt ip cfg h = ground arith

-- With at least one shard: of the nodes with the indices 0 up to `shards`, all else of their
-- configurations being equal, exactly one crawls an address inside the sample, and none an address
-- outside it.
pub in_shard_sample-partition :
    (ip : ℕ) (cfg : ShardConfig)
    → 0 < cfg.shards
    → length (picks (λ id. in_shard_sample ip (record cfg { shard_id = id })) 0 cfg.shards)
      ≡ (if in_sample ip cfg then 1 else 0)
in_shard_sample-partition ip cfg h =
    let all =
      picks_congr (λ id. in_shard_sample ip (record cfg { shard_id = id }))
        (λ id. if in_sample ip cfg then owner ip cfg == id else false) 0 cfg.shards
        (λ id lo hi. member_lem ip id cfg) in
    elim (Bool-cases (in_sample ip cfg)) [
      | inl inn ↦
          rw (all, inn) (ground (arith, count_one (owner ip cfg) 0 cfg.shards, owner-lt ip cfg h))
      | inr out ↦ rw (all, out) (count_none 0 cfg.shards)
    ]
