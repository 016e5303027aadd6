-- ===== src/Ipgen/Walk/Emitted.antt =====
-- internal/ipgen/ipgen.go: the addresses that the two walks emit, and where a walk resumes.
use r_dns_crawler.Base.{
  ℕ, suc, ◌+◌, ◌-◌, ◌^◌, ◌<◌, ◌≡◌, refl, sym, ap, ◌∙◌, false, List, ◌++◌, some, ◌==◌, arith, take,
  drop, get_elem?, take_add, get_elem?-take,
}
use r_dns_crawler.Ipgen.Reserved.Laws.{picks, picks-eq, picks_congr}
use r_dns_crawler.Ipgen.Shard.{ShardConfig, in_shard_sample}
use r_dns_crawler.Ipgen.Walk.{generate_sequential, normalised, generate_sharded_full}
use r_dns_crawler.Ipgen.Walk.Sharded.{
  emits, walk_end, wanted, quota, min, sharded_lem, drop-picks, some_injective,
}
use r_dns_crawler.Ipgen.Walk.Sequential.{routable, sequential_lem}

-- From a uint32 start on, with fuel for the rest of the address space: when `room` sends go through
-- before the context is cancelled, `GenerateSequential` returns and has emitted the first `count`
-- addresses at or above the start that are not reserved, or the first `room` of them if that is
-- less.
pub generate_sequential_lem :
    (fuel room start_ip count : ℕ)
    → start_ip < 2 ^ 32
    → 2 ^ 32 < fuel + start_ip
    → emits (generate_sequential fuel room start_ip count)
      ≡ some (take (min room count) (picks routable start_ip (walk_end - start_ip)))
unfolding generate_sequential
generate_sequential_lem fuel room start_ip count h enough =
    let whole : count - 0 ≡ count = omega arith in
    sequential_lem fuel room count 0 start_ip (omega arith) (omega arith)
    ∙ ap (λ c. some (take (min room c) (picks routable start_ip (walk_end - start_ip)))) whole

-- From a uint32 start on, with fuel for the rest of the address space: when `room` sends go through
-- before the context is cancelled, `GenerateShardedFull` returns and has emitted, in ascending
-- order and without a gap, the addresses at or above the start that are not reserved and belong to
-- the node: the first `room` of them, and not more than `Limit` if that is not 0. No shards count as
-- one.
pub generate_sharded_full_lem :
    (fuel room : ℕ) (cfg : ShardConfig)
    → cfg.start_ip < 2 ^ 32
    → 2 ^ 32 < fuel + cfg.start_ip
    → emits (generate_sharded_full fuel room cfg)
      ≡ some (
          take
            (quota (normalised cfg) room 0)
            (picks (wanted (normalised cfg)) cfg.start_ip (walk_end - cfg.start_ip)))
unfolding generate_sharded_full
generate_sharded_full_lem fuel room cfg h enough =
    sharded_lem (normalised cfg) fuel room 0 0 cfg.start_ip (omega arith) (omega arith)

-- The walk of a configuration that needs no normalising.
walk_lem :
    (fuel room : ℕ) (cfg : ShardConfig)
    → cfg.limit ≡ 0
    → 0 < cfg.shards
    → cfg.start_ip < 2 ^ 32
    → 2 ^ 32 < fuel + cfg.start_ip
    → emits (generate_sharded_full fuel room cfg)
      ≡ some (take room (picks (wanted cfg) cfg.start_ip (walk_end - cfg.start_ip)))
unfolding normalised
walk_lem fuel room cfg no_limit some_shards h enough =
    let at_least : (cfg.shards == 0) ≡ false = ground arith in
    let same : normalised cfg ≡ cfg = rw at_least refl in
    let every : quota cfg room 0 ≡ room = ground arith in
    generate_sharded_full_lem fuel room cfg h enough
    ∙ ap
        (λ c.
          some (take (quota c room 0) (picks (wanted c) cfg.start_ip (walk_end - cfg.start_ip))))
        same
    ∙ ap (λ n. some (take n (picks (wanted cfg) cfg.start_ip (walk_end - cfg.start_ip)))) every

wanted_start : (cfg : ShardConfig) (s v : ℕ) → wanted (record cfg { start_ip = s }) v ≡ wanted cfg v
unfolding in_shard_sample
wanted_start cfg s v = refl

-- A walk without a limit, of at least one shard, is cancelled after the send of `w`, its last
-- address. With fuel for the rest of the address space, a second walk from `w + 1` emits what the
-- first one would have gone on with: no address is repeated and none is left out.
pub generate_sharded_full_resume :
    (fuel again room k w : ℕ) (cfg : ShardConfig) (sent rest : List ℕ)
    → cfg.limit ≡ 0
    → 0 < cfg.shards
    → cfg.start_ip < 2 ^ 32
    → w + 1 < 2 ^ 32
    → 2 ^ 32 < fuel + cfg.start_ip
    → 2 ^ 32 < again + (w + 1)
    → emits (generate_sharded_full fuel (suc k) cfg) ≡ some sent
    → get_elem? sent k ≡ some w
    → emits (generate_sharded_full again room (record cfg { start_ip = w + 1 })) ≡ some rest
    → emits (generate_sharded_full fuel (suc k + room) cfg) ≡ some (sent ++ rest)
generate_sharded_full_resume fuel again room k w cfg sent rest no_limit some_shards h hw enough
      enough2 first last second =
    walk_lem fuel (suc k + room) cfg no_limit some_shards h enough
    ∙ ap some (take_add (suc k) room l)
    ∙ ap (λ t. some (t ++ take room (drop (suc k) l))) sent_eq
    ∙ ap (λ t. some (sent ++ t)) rest_eq
  where
    l : List ℕ
    l = picks (wanted cfg) cfg.start_ip (walk_end - cfg.start_ip)

    next : ShardConfig
    next = record cfg { start_ip = w + 1 }

    sent_eq : take (suc k) l ≡ sent
    sent_eq = some_injective (sym (walk_lem fuel (suc k) cfg no_limit some_shards h enough) ∙ first)

    from : drop (suc k) l ≡ picks (wanted cfg) (w + 1) (walk_end - (w + 1))
    from =
        drop-picks (wanted cfg) cfg.start_ip (walk_end - cfg.start_ip) k w
          (get_elem?-take k (suc k) l w (rw sent_eq last))
        ∙ picks-eq (wanted cfg) {v = w + 1} refl (omega arith)

    rest_eq : take room (drop (suc k) l) ≡ rest
    rest_eq =
        ap (take room) from
        ∙ ap (take room) (
            picks_congr (wanted cfg) (wanted next) (w + 1) (walk_end - (w + 1))
              (λ v lo hi. sym (wanted_start cfg (w + 1) v)))
        ∙ some_injective (
            sym (walk_lem again room next no_limit some_shards (omega arith) (omega arith))
            ∙ second)
