-- ===== src/Ipgen/Walk.antt =====
-- internal/ipgen/ipgen.go: the ascending walks, `GenerateSequential` and `GenerateShardedFull`.
-- The consumer and the context are `room`, the number of sends that go through before the context
-- is cancelled.
pub mod Sharded
pub mod Sequential
pub mod Emitted
use r_dns_crawler.Base.{
  ℕ, zero, suc, ◌+◌, ◌^◌, Bool, true, false, not, ◌&&◌, List, [], ◌∷◌, Option, some, none, ltb, leb,
  ◌==◌, if◌then◌else◌,
}
use r_dns_crawler.Ipgen.Reserved.{reserved_ipv4_ranges, is_reserved, block_end}
use r_dns_crawler.Ipgen.Shard.{ShardConfig, in_shard_sample}

-- What the consumer sees of a walk, in the order of the sends: an address on `out`, or an attempt to
-- send on `cursor`, whose receiver may not be ready. A walk that is out of fuel is `stuck`.
pub data Event : Type 0 where
  emit : ℕ → Event
  checkpoint : ℕ → Event
  stuck : Event

-- The loop that jumps over the reserved block around `v`.
unfoldable pub jump : ℕ → ℕ
jump v = elim (block_end reserved_ipv4_ranges v) [ some e ↦ e + 1 | none ↦ v ]

unfoldable pub sequential : (fuel room count emitted v : ℕ) → List Event
sequential zero room count emitted v = stuck ∷ []
sequential (suc fuel) room count emitted v = elim (ltb emitted count && leb v 0xffffffff) [
  | false ↦ []
  | true ↦ elim (is_reserved v) [
    | true ↦ sequential fuel room count emitted (jump v)
    | false ↦ elim room [
      | zero ↦ []
      | suc more ↦ emit v ∷ sequential fuel more count (emitted + 1) (v + 1)
    ]
  ]
]

-- `GenerateSequential`: every turn of the loop moves `v` on, so that 2 ^ 32 + 1 turns are enough.
unfoldable pub generate_sequential : (fuel room start_ip count : ℕ) → List Event
generate_sequential fuel room start_ip count = sequential fuel room count 0 start_ip

abbrev pub checkpoint_every : ℕ
checkpoint_every = 131072

unfoldable pub sharded : ShardConfig → (fuel room emitted since v : ℕ) → List Event
sharded cfg zero room emitted since v = stuck ∷ []
sharded cfg (suc fuel) room emitted since v = elim (leb v 0xffffffff) [
  | false ↦ []
  | true ↦ elim (not (cfg.limit == 0) && leb cfg.limit emitted) [
    | true ↦ []
    | false ↦ elim (is_reserved v) [
      | true ↦ sharded cfg fuel room emitted since (jump v)
      | false ↦ elim (in_shard_sample v cfg) [
        | false ↦ sharded cfg fuel room emitted since (v + 1)
        | true ↦ elim room [
          | zero ↦ []
          | suc more ↦ emit v ∷ elim (leb checkpoint_every (since + 1)) [
            | true ↦ checkpoint v ∷ sharded cfg fuel more (emitted + 1) 0 (v + 1)
            | false ↦ sharded cfg fuel more (emitted + 1) (since + 1) (v + 1)
          ]
        ]
      ]
    ]
  ]
]

-- No shards is one shard.
unfoldable pub normalised : ShardConfig → ShardConfig
normalised cfg = if cfg.shards == 0 then record cfg { shards = 1 } else cfg

unfoldable pub generate_sharded_full : (fuel room : ℕ) → ShardConfig → List Event
generate_sharded_full fuel room cfg = sharded (normalised cfg) fuel room 0 0 cfg.start_ip
