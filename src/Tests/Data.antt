-- ===== src/Tests/Data.antt =====
-- Records and files that the examples share.
use r_dns_crawler.Base.{
  ◌≡◌, ◌++◌, Bytes, ℕ, ◌<◌, refl, List, [], ◌∷◌, some, none, true, codes, length, All, arith,
  bytes_eq, strip_prefix,
}
use r_dns_crawler.Model.Record.{Record}
use r_dns_crawler.Model.Status.{has_ptr}
use r_dns_crawler.Ipgen.Address.{int_to_ip}
use r_dns_crawler.Store.Codec.{copying}
use r_dns_crawler.Store.Header.{Header, format_ver}
use r_dns_crawler.Store.Header.RoundTrip.{IsHeader}
use r_dns_crawler.Store.Varint.{append_uvarint}
use r_dns_crawler.Store.Template.{encode_template, replace_all, replace_from, join4, itoa}
use r_dns_crawler.Store.Block.{
  Rec, finished, encode_block, encode_records, encode_record, encode_ptr, encode_names,
  status_flags,
}
use r_dns_crawler.Store.Block.RoundTrip.{IsStorable}
use r_dns_crawler.Base.Counters.{zeros}
use r_dns_crawler.Store.Header.{header, read_header}
use r_dns_crawler.Store.Header.RoundTrip.{read_header-header, length-header}
use r_dns_crawler.Base.Results.{ok}
use r_dns_crawler.Store.Scan.{scan}
use r_dns_crawler.Store.Scan.Written.{IsBlock, blocks, stored_blocks, scan_whole}

-- A miss, and a hit without forward confirmation.
abbrev pub miss : ℕ → Record
miss ip = record {
  ip = int_to_ip ip;
  ip_int = ip;
  status = codes "nxdomain";
  ptr = [];
  f_cr_dns = none;
  resolver = [];
  attempts = 1;
  latency_ms = 3;
  rcode = [];
  error = [];
  ts = [];
}

abbrev pub hit : ℕ → Record
hit ip = record (miss ip) { status = codes "has_ptr"; ptr = codes "a.b" ∷ []; f_cr_dns = some true }

abbrev pub two : List Record
two = hit 16909060 ∷ miss 16909061 ∷ []

pub two-IsStorable : All IsStorable two
two-IsStorable = (
  record { is_ipv4 = omega arith; plain = ground arith },
  (record { is_ipv4 = omega arith; plain = tt }, tt),
)

pub two-length : length (encode_block two) < 1000
unfolding encode_block encode_records encode_record encode_ptr encode_names status_flags
    append_uvarint encode_template has_ptr bytes_eq replace_all replace_from strip_prefix join4 itoa
two-length = omega arith

pub two-IsBlock : IsBlock copying two
two-IsBlock = record {
  storable = two-IsStorable;
  payload_fits = omega (arith, two-length);
  compressed_fits = omega (arith, two-length);
}

abbrev pub shard_header : Header
shard_header = record {
  version = format_ver;
  shards = 7;
  shard_id = 2;
  total = 5;
  counts = 1 ∷ 0 ∷ 4 ∷ 0 ∷ 0 ∷ 0 ∷ 0 ∷ 0 ∷ [];
  created = 1700000000;
}

pub shard_header-IsHeader : IsHeader shard_header
shard_header-IsHeader = record {
  versioned = refl;
  shards_fit = omega arith;
  shard_id_fits = omega arith;
  created_fits = omega arith;
  total_fits = omega arith;
  all_counts = refl;
  counts_fit = ground arith;
}

-- A pass of two records, of which the mask for `nxdomain` takes one.
abbrev pub pass : Bytes
pass = zeros 128 ++ blocks copying (two ∷ [])

abbrev pub records : List Rec
records = stored_blocks copying (two ∷ [])

pub pass-scan : scan copying pass ≡ (records, finished)
pass-scan = scan_whole copying (zeros 128) (two ∷ []) refl (two-IsBlock, tt)

-- The same records in a file with a header.
abbrev pub old : Bytes
old = header shard_header ++ blocks copying (two ∷ [])

pub old-header : read_header old ≡ ok shard_header
old-header = read_header-header shard_header _ shard_header-IsHeader

pub old-scan : scan copying old ≡ (records, finished)
old-scan =
    scan_whole copying (header shard_header) (two ∷ []) (length-header shard_header refl)
      (two-IsBlock, tt)
