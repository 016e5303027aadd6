-- ===== src/Tests/Files.antt =====
-- internal/store: runs of the writer and of the target stream, at concrete inputs.
use mathlib.Core.List.{Permᴰ}
use mathlib.Core.List.Permᴰ
use r_dns_crawler.Base.{
  ◌+◌, ◌%◌, ◌^◌, ◌<◌, ◌≡◌, refl, List, [], ◌∷◌, ◌++◌, some, Bytes, length, All, arith, map, take,
  drop, bytes_eq,
}
use r_dns_crawler.Base.Counters.{zeros}
use r_dns_crawler.Base.Results.{ok}
use r_dns_crawler.Model.Record.{Record}
use r_dns_crawler.Store.Codec.{copying}
use r_dns_crawler.Store.Header.{Header, read_header, count}
use r_dns_crawler.Store.Block.{
  Rec, encode_block, encode_records, encode_record, finished, failed, truncated_tail,
}
use r_dns_crawler.Store.Block.RoundTrip.{stored}
use r_dns_crawler.Store.Words.{put_le}
use r_dns_crawler.Store.Varint.{append_uvarint}
use r_dns_crawler.Store.Targets.{stream_targets}
use r_dns_crawler.Store.Targets.Delivered.{delivered, targets, quota, min}
use r_dns_crawler.Store.Targets.Resume.{stream_targets_lem, stream_targets_resume}
use r_dns_crawler.Model.Mask.{has}
use r_dns_crawler.Model.Status.{code, status_to_code}
use r_dns_crawler.Store.Scan.{scan, block_bytes}
use r_dns_crawler.Store.Scan.Written.{IsBlock, blocks, stored_blocks, scan_truncated}
use r_dns_crawler.Store.Writer.{Writer, new_writer, new_writer_resume, consume, close}
use r_dns_crawler.Store.Writer.Stats.{count_code}
use r_dns_crawler.Store.Writer.Written.{chunks, chunk_from}
use r_dns_crawler.Store.Writer.RoundTrip.{scan-close, read_header-close}
use r_dns_crawler.Store.Writer.Resume.{earlier_file, scan-resume, read_header-resume}
use r_dns_crawler.Tests.Data.{
  two, two-IsBlock, shard_header, shard_header-IsHeader, pass, records, pass-scan,
}

-- A sort that finds its block in order.
abbrev in_order : List Record → List Record
in_order l = l

abbrev closed : Writer → List Record → Bytes
closed w rs = close copying in_order (consume copying in_order w rs)

chunks-IsBlock : All (IsBlock copying) (map in_order (chunks two))
unfolding chunk_from
chunks-IsBlock = (two-IsBlock, tt)

scan-close_example :
    (out : List Rec) × (scan copying (closed (new_writer 7 2 1700000000) two) ≡ (out, finished))
    × Permᴰ out (map stored two)
scan-close_example =
    scan-close copying in_order (λ l. Permᴰ.refl l) 7 2 1700000000 two chunks-IsBlock

read_header-close_example :
    (h : Header) × (read_header (closed (new_writer 7 2 1700000000) two) ≡ ok h)
    × (h.shards ≡ 7)
    × (h.shard_id ≡ 2)
    × (h.created ≡ 1700000000)
    × (h.total ≡ 2)
    × (count h 0 ≡ count_code 0 two)
read_header-close_example =
    read_header-close copying in_order (λ l. Permᴰ.refl l) 7 2 1700000000 two 0 (omega arith)
      (omega arith) (omega arith) (omega arith) (omega arith)

block-length : 12 < length (block_bytes copying two)
unfolding block_bytes put_le encode_block encode_records encode_record append_uvarint
block-length = omega (arith)

scan_truncated_example :
    scan copying (zeros 128 ++ (blocks copying (two ∷ []) ++ take 5 (block_bytes copying two)))
    ≡ (stored_blocks copying (two ∷ []), failed truncated_tail)
scan_truncated_example =
    scan_truncated copying (zeros 128) (two ∷ []) two 5 refl (two-IsBlock, tt) two-IsBlock
      (omega arith) (omega (arith, block-length))

scan-resume_example :
    (w : Writer) × (new_writer_resume
        (some (earlier_file copying shard_header (two ∷ [])))
        7
        2
        1700000000
      ≡ ok w)
    × (out : List Rec) × (scan copying (earlier_file copying shard_header (two ∷ []))
        ≡ (stored_blocks copying (two ∷ []), finished))
    × (scan copying (closed w two) ≡ (stored_blocks copying (two ∷ []) ++ out, finished))
    × Permᴰ out (map stored two)
scan-resume_example =
    scan-resume copying in_order (λ l. Permᴰ.refl l) shard_header (two ∷ []) shard_header-IsHeader
      1700000000 (omega arith) two (two-IsBlock, tt) chunks-IsBlock

read_header-resume_example :
    (w : Writer) × (new_writer_resume
        (some (earlier_file copying shard_header (two ∷ [])))
        7
        2
        1700000000
      ≡ ok w)
    × (h' : Header) × (read_header (closed w two) ≡ ok h')
    × (h'.shards ≡ 7)
    × (h'.shard_id ≡ 2)
    × (h'.total ≡ (5 + 2) % 2 ^ 64)
    × (count h' 0 ≡ (count shard_header 0 + count_code 0 two) % 2 ^ 64)
read_header-resume_example =
    read_header-resume copying in_order (λ l. Permᴰ.refl l) shard_header (two ∷ [])
      shard_header-IsHeader 1700000000 (omega arith) two 0 (omega arith)

few : length records < 2 ^ 64
few = omega arith

one_target : length (targets 4 records) ≡ 1
unfolding has code status_to_code bytes_eq
one_target = refl

stream_targets_lem_example :
    let s = stream_targets copying pass 4 0 0 0 9 in
    (delivered s.events ≡ take (quota 0 9 0) (drop 0 (targets 4 records)))
    × (s.cursor ≡ min 0 (length (targets 4 records)) + length (delivered s.events))
stream_targets_lem_example =
    stream_targets_lem copying pass 4 0 0 0 9 records finished pass-scan few

stream_targets_resume_example :
    let first = stream_targets copying pass 4 0 1 0 1 in
    let second = stream_targets copying pass 4 first.cursor 0 0 2 in
    delivered first.events ++ delivered second.events
    ≡ delivered (stream_targets copying pass 4 0 0 0 (length (delivered first.events) + 2)).events
stream_targets_resume_example =
    stream_targets_resume copying pass 4 0 1 0 1 2 records finished pass-scan few (omega arith)
