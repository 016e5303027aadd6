-- ===== src/Tests/Crawl.antt =====
-- internal/ipgen: the walks at concrete inputs.
use r_dns_crawler.Base.{ℕ, ◌-◌, ◌≡◌, refl, [], ◌∷◌, some, length, arith, take, if◌then◌else◌}
use r_dns_crawler.Ipgen.Reserved.{is_reserved, in_any}
use r_dns_crawler.Ipgen.Reserved.Laws.{picks}
use r_dns_crawler.Ipgen.Shard.{ShardConfig, in_shard_sample, mix64}
use r_dns_crawler.Ipgen.Shard.Laws.{in_sample, in_shard_sample-partition}
use r_dns_crawler.Ipgen.Walk.{generate_sequential, generate_sharded_full, normalised, sharded}
use r_dns_crawler.Ipgen.Walk.Sharded.{emits, walk_end, wanted, quota, min}
use r_dns_crawler.Ipgen.Walk.Sequential.{routable}
use r_dns_crawler.Ipgen.Walk.Emitted.{
  generate_sequential_lem, generate_sharded_full_lem, generate_sharded_full_resume,
}

-- The third of three nodes, from 1.1.1.0 on.
abbrev third : ShardConfig
third = record { shards = 3; shard_id = 2; start_ip = 16843008; limit = 0; sample_threshold = 0 }

mix64_of_one : mix64 12345 ≡ 2454886589211414944
unfolding mix64
mix64_of_one = refl

in_shard_sample-partition_example :
    length (picks (λ id. in_shard_sample 16843009 (record third { shard_id = id })) 0 3)
    ≡ (if in_sample 16843009 third then 1 else 0)
in_shard_sample-partition_example = in_shard_sample-partition 16843009 third (omega arith)

-- A walk whose fuel is for the rest of the space behind the start.
abbrev enough : ℕ
enough = 4278124300

generate_sequential_lem_example :
    emits (generate_sequential enough 2 16843008 5)
    ≡ some (take (min 2 5) (picks routable 16843008 (walk_end - 16843008)))
generate_sequential_lem_example =
    generate_sequential_lem enough 2 16843008 5 (omega arith) (omega arith)

generate_sharded_full_lem_example :
    emits (generate_sharded_full enough 2 third)
    ≡ some (
        take
          (quota (normalised third) 2 0)
          (picks (wanted (normalised third)) 16843008 (walk_end - 16843008)))
generate_sharded_full_lem_example =
    generate_sharded_full_lem enough 2 third (omega arith) (omega arith)

first_walk : emits (generate_sharded_full enough 1 third) ≡ some (16843010 ∷ [])
unfolding generate_sharded_full sharded normalised is_reserved in_any in_shard_sample
first_walk = refl

second_walk :
    emits (generate_sharded_full enough 1 (record third { start_ip = 16843011 }))
    ≡ some (16843013 ∷ [])
unfolding generate_sharded_full sharded normalised is_reserved in_any in_shard_sample
second_walk = refl

generate_sharded_full_resume_example :
    emits (generate_sharded_full enough 2 third) ≡ some (16843010 ∷ 16843013 ∷ [])
generate_sharded_full_resume_example =
    generate_sharded_full_resume enough enough 1 0 16843010 third (16843010 ∷ []) (16843013 ∷ [])
      refl (omega arith) (omega arith) (omega arith) (omega arith) (omega arith) first_walk refl
      second_walk
