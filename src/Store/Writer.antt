-- ===== src/Store/Writer.antt =====
-- internal/store/writer.go: the writer of a .rdnsz file. The file and the buffer in front of it are
-- one list of bytes, since nothing reads the file before `Close` has flushed.
pub mod Stats
pub mod Written
pub mod RoundTrip
pub mod Resume
use r_dns_crawler.Base.{
  ℕ, ◌+◌, ◌%◌, ◌^◌, Bool, true, false, ◌&&◌, List, [], ◌∷◌, ◌++◌, Option, some, none, Bytes, length,
  drop, ltb, leb, ◌==◌, if◌then◌else◌, map,
}
use r_dns_crawler.Base.Counters.{bump_at, zeros}
use r_dns_crawler.Base.Hosts.{tld_of, bump_keys}
use r_dns_crawler.Base.Results.{Result, ok, err}
use r_dns_crawler.Model.Record.{Record}
use r_dns_crawler.Model.Status.{code, has_ptr, num_status_codes}
use r_dns_crawler.Store.Codec.{Codec}
use r_dns_crawler.Store.Header.{Header, HeaderError, format_ver, header_size, header, read_header}
use r_dns_crawler.Store.Scan.{block_bytes}

abbrev pub block_recs : ℕ
block_recs = 2 ^ 16

-- `start` is a Unix time, as the bit pattern of the int64.
pub record Writer : Type 0 where
  pub file : Bytes
  pub start : ℕ
  pub shards : ℕ
  pub shard_id : ℕ
  pub total : ℕ
  pub counts : List ℕ
  pub fc_checked : ℕ
  pub fc_match : ℕ
  pub buf : List Record
  pub tld_counts : List (Bytes × ℕ)

-- `NewWriter` and `newWriter`: the file is created with an empty header.
unfoldable pub new_writer : ℕ → ℕ → ℕ → Writer
new_writer shards shard_id now = record {
  file = zeros header_size;
  start = now;
  shards = shards;
  shard_id = shard_id;
  total = 0;
  counts = zeros num_status_codes;
  fc_checked = 0;
  fc_match = 0;
  buf = [];
  tld_counts = [];
}

pub data ResumeError : Type 0 where
  bad_header : HeaderError → ResumeError
  other_shard : ℕ → ℕ → ResumeError

-- The writer that appends to a file with the header `h`.
unfoldable pub resume_from : Bytes → Header → ℕ → ℕ → ℕ → Writer
resume_from file h shards shard_id now = record (new_writer shards shard_id now) {
  file = file;
  start = if h.created == 0 then now else h.created;
  total = h.total;
  counts = h.counts;
}

-- `NewWriterResume`: a file that is missing (`none`) or shorter than a header is created anew.
unfoldable pub new_writer_resume : Option Bytes → ℕ → ℕ → ℕ → Result ResumeError Writer
new_writer_resume none shards shard_id now = ok (new_writer shards shard_id now)
new_writer_resume (some file) shards shard_id now =
    if ltb (length file) header_size
    then ok (new_writer shards shard_id now)
    else (elim (read_header file) [
      | err e ↦ err (bad_header e)
      | ok h ↦
          if h.shards == shards && h.shard_id == shard_id
          then ok (resume_from file h shards shard_id now)
          else err (other_shard h.shard_id h.shards)
    ])

abbrev pub one_if : Bool → ℕ
one_if true = 1
one_if false = 0

abbrev pub checks : Option Bool → ℕ
checks none = 0
checks (some m) = 1

abbrev pub matches : Option Bool → ℕ
matches none = 0
matches (some m) = one_if m

-- The counting half of `add`; the counters are uint64.
unfoldable pub tally : Writer → Record → Writer
tally w r = record w {
  total = (w.total + 1) % 2 ^ 64;
  counts = bump_at (code r.status) w.counts;
  fc_checked = (w.fc_checked + checks r.f_cr_dns) % 2 ^ 64;
  fc_match = (w.fc_match + matches r.f_cr_dns) % 2 ^ 64;
  tld_counts = if has_ptr r.status then bump_keys (map tld_of r.ptr) w.tld_counts else w.tld_counts;
  buf = w.buf ++ (r ∷ []);
}

-- The header that the writer's statistics make.
abbrev pub header_of : Writer → Header
header_of w = record {
  version = format_ver;
  shards = w.shards;
  shard_id = w.shard_id;
  total = w.total;
  counts = w.counts;
  created = w.start;
}

-- `sort_slice` is what `sort.Slice` makes of the buffer: it is not a stable sort, so its result is
-- not a function of the order by address alone.
module _ (z : Codec) (sort_slice : List Record → List Record) where
  -- `flushBlock`.
  unfoldable pub flush_block : Writer → Writer
  flush_block w = elim w.buf [
    | [] ↦ w
    | r ∷ rs ↦ record w { file = w.file ++ block_bytes z (sort_slice w.buf); buf = [] }
  ]

  -- `add`.
  unfoldable pub add : Writer → Record → Writer
  add w r = let w' = tally w r in if leb block_recs (length w'.buf) then flush_block w' else w'

  -- `Consume`, and `Add` record by record.
  unfoldable pub consume : Writer → List Record → Writer
  consume w [] = w
  consume w (r ∷ rs) = consume (add w r) rs

  -- The bytes of the file after `Close`: the header is written over the first 128 bytes.
  unfoldable pub close : Writer → Bytes
  close w = let w' = flush_block w in header (header_of w') ++ drop header_size w'.file
