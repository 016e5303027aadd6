-- ===== src/Store/Scan.antt =====
-- internal/store/reader.go, `Scan`: the blocks of a file, one after the other.
pub mod Written
use r_dns_crawler.Base.{
  ℕ, zero, suc, List, [], ◌∷◌, ◌++◌, Option, some, none, Bytes, length, take, drop, ltb,
  if◌then◌else◌,
}
use r_dns_crawler.Model.Record.{Record}
use r_dns_crawler.Store.Codec.{Codec}
use r_dns_crawler.Store.Header.{header_size}
use r_dns_crawler.Store.Words.{put_le, get_le}
use r_dns_crawler.Store.Block.{
  Rec, Outcome, finished, failed, stuck, truncated_tail, block_decompress, header_short,
  encode_block, decode_block,
}

-- A block that ended without an error is followed by the rest of the file.
unfoldable pub continue_scan : List Rec × Outcome → List Rec × Outcome → List Rec × Outcome
continue_scan (rs, finished) (rs', e) = (rs ++ rs', e)
continue_scan (rs, e) rest = (rs, e)

module _ (z : Codec) where
  -- What `flushBlock` writes for sorted records: three uint32 and the compressed payload.
  unfoldable pub block_bytes : List Record → Bytes
  block_bytes rs =
      let raw = encode_block rs in
      let comp = z.compress raw in
      put_le 4 (length comp) ++ (put_le 4 (length rs) ++ (put_le 4 (length raw) ++ comp))

  -- The payload of one block: it fails to decompress, or its records are read.
  unfoldable pub scan_payload : Option Bytes → List Rec × Outcome
  scan_payload none = ([], failed block_decompress)
  scan_payload (some raw) = decode_block raw

  -- The loop of `Scan`. A file that ends inside a block header or a payload is truncated.
  unfoldable pub scan_blocks : ℕ → Bytes → List Rec × Outcome
  scan_blocks fuel [] = ([], finished)
  scan_blocks zero (b ∷ file) = ([], stuck)
  scan_blocks (suc fuel) (b ∷ file) =
      let comp_len = get_le 4 (b ∷ file) in
      let body = drop 12 (b ∷ file) in
      let more = scan_blocks fuel (drop comp_len body) in
      if ltb (length (b ∷ file)) 12
      then ([], failed truncated_tail)
      else if ltb (length body) comp_len
      then ([], failed truncated_tail)
      else continue_scan (scan_payload (z.decompress (take comp_len body))) more

  -- `Scan` on the bytes of a file; a file shorter than the header ends in an error of the copy.
  -- Each block takes bytes, so as many rounds as there are bytes are enough.
  unfoldable pub scan : Bytes → List Rec × Outcome
  scan file =
      if ltb (length file) header_size
      then ([], failed header_short)
      else scan_blocks (length file) (drop header_size file)
