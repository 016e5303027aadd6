-- ===== src/Cmd/Setup.antt =====
-- cmd/rdns-crawler/main.go: what a command makes of its flags before it starts.
pub mod Laws
use r_dns_crawler.Base.{
  ℕ, ◌%◌, ◌^◌, Bool, true, false, List, [], ◌∷◌, Option, some, none, Bytes, trim_space, split, leb,
  ◌==◌, if◌then◌else◌, codes, bytes_eq,
}
use r_dns_crawler.Base.Results.{Result, ok, err}
use r_dns_crawler.Ipgen.Shard.{ShardConfig}
use r_dns_crawler.Cmd.Cursor.{crawl_start}

-- `DefaultResolvers`.
abbrev pub default_resolvers : List Bytes
default_resolvers =
    codes "1.1.1.1:53"
    ∷ codes "1.0.0.1:53"
    ∷ codes "8.8.8.8:53"
    ∷ codes "8.8.4.4:53"
    ∷ codes "9.9.9.9:53"
    ∷ codes "149.112.112.112:53"
    ∷ codes "208.67.222.222:53"
    ∷ codes "208.67.220.220:53"
    ∷ []

-- A trimmed line that is left out: a blank one or a comment.
abbrev pub is_skipped : Bytes → Bool
is_skipped [] = true
is_skipped (c ∷ s) = c == b'#'

-- The lines of a resolvers file that are kept, trimmed.
unfoldable pub listed : List Bytes → List Bytes
listed [] = []
listed (line ∷ lines) =
    let rest = listed lines in let ln = trim_space line in if is_skipped ln then rest else ln ∷ rest

pub data ResolversError : Type 0 where
  unreadable : ResolversError
  empty_file : ResolversError

unfoldable pub file_list : List Bytes → Result ResolversError (List Bytes)
file_list [] = err empty_file
file_list (s ∷ list) = ok (s ∷ list)

-- `resolverList`: no resolvers file is `none`, one that cannot be read is `some none`.
unfoldable pub resolver_list :
    (resolvers_file : Option (Option Bytes))
    → (resolvers : Bytes) → Result ResolversError (List Bytes)
unfolding file_list listed
resolver_list (some none) resolvers = err unreadable
resolver_list (some (some data_read)) resolvers = file_list (listed (split data_read b'\n'))
resolver_list none resolvers = elim (trim_space resolvers) [
  | [] ↦ ok default_resolvers
  | c ∷ s ↦ ok (split resolvers b',')
]

unfoldable pub ext : Bytes → Bytes
ext format = if bytes_eq format (codes "jsonl") then codes "jsonl" else codes "rdnsz"

-- What `runCrawl` starts: the numbers that go into the output's header, which are uint16, and the walk,
-- whose numbers are uint32; the flags are uints of 64 bits. A shard that is not below the number of
-- shards ends the program.
pub record Crawl : Type 0 where
  pub header_shards : ℕ
  pub header_shard_id : ℕ
  pub walk : ShardConfig

unfoldable pub crawl_setup :
    (shards shard_id start limit sample_threshold : ℕ) → (resume : Bool) → Option ℕ → Option Crawl
crawl_setup shards shard_id start limit sample_threshold resume cursor =
    if leb shards shard_id
    then none
    else some (record {
      header_shards = shards % 2 ^ 16;
      header_shard_id = shard_id % 2 ^ 16;
      walk = record {
        shards = shards % 2 ^ 32;
        shard_id = shard_id % 2 ^ 32;
        start_ip = crawl_start start resume cursor;
        limit = limit;
        sample_threshold = sample_threshold;
      };
    })
