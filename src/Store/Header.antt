-- ===== src/Store/Header.antt =====
-- The file header: the constants of internal/store/format.go, `header` in internal/store/writer.go,
-- `Header`, `Count` and `ReadHeader` in internal/store/reader.go.
pub mod RoundTrip
use r_dns_crawler.Base.{
  ℕ, zero, suc, ◌+◌, ◌*◌, ◌-◌, List, [], ◌∷◌, ◌++◌, Bytes, codes, bytes_eq, length, take, drop, ltb,
  if◌then◌else◌,
}
use r_dns_crawler.Base.Counters.{zeros, count_at}
use r_dns_crawler.Base.Results.{Result, ok, err}
use r_dns_crawler.Model.Status.{num_status_codes}
use r_dns_crawler.Store.Words.{put_le, get_le}

abbrev pub magic : Bytes
magic = codes "RDNS2"

abbrev pub format_ver : ℕ
format_ver = 2

abbrev pub header_size : ℕ
header_size = 128

abbrev pub off_version : ℕ
off_version = 5

abbrev pub off_shards : ℕ
off_shards = 6

abbrev pub off_shard_id : ℕ
off_shard_id = 8

abbrev pub off_created : ℕ
off_created = 10

abbrev pub off_total : ℕ
off_total = 18

abbrev pub off_counts : ℕ
off_counts = 26

-- `created` is the bit pattern of the int64.
pub record Header : Type 0 where
  pub version : ℕ
  pub shards : ℕ
  pub shard_id : ℕ
  pub total : ℕ
  pub counts : List ℕ
  pub created : ℕ

unfoldable pub count : Header → ℕ → ℕ
count h c = if ltb c num_status_codes then count_at c h.counts else 0

unfoldable pub put_counts : List ℕ → Bytes
put_counts [] = []
put_counts (n ∷ counts) = put_le 8 n ++ put_counts counts

-- `header`: the fields stand at their offsets side by side, and the rest of the 128 bytes is zero.
unfoldable pub header : Header → Bytes
header h =
    magic
    ++ (format_ver
        ∷ (put_le 2 h.shards
            ++ (put_le 2 h.shard_id
                ++ (put_le 8 h.created
                    ++ (put_le 8 h.total ++ (put_counts h.counts ++ zeros 38))))))

pub data HeaderError : Type 0 where
  short_file bad_magic : HeaderError

unfoldable pub get_counts : ℕ → Bytes → List ℕ
get_counts zero b = []
get_counts (suc n) b = get_le 8 b ∷ get_counts n (drop 8 b)

-- `ReadHeader` on the bytes of the file.
unfoldable pub read_header : Bytes → Result HeaderError Header
read_header file =
    if ltb (length file) header_size
    then err short_file
    else if bytes_eq (take 5 file) magic
    then ok (record {
      version = get_le 1 (drop off_version file);
      shards = get_le 2 (drop off_shards file);
      shard_id = get_le 2 (drop off_shard_id file);
      total = get_le 8 (drop off_total file);
      counts = get_counts num_status_codes (drop off_counts file);
      created = get_le 8 (drop off_created file);
    })
    else err bad_magic
