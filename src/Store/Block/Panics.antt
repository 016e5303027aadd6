-- ===== src/Store/Block/Panics.antt =====
-- internal/store/reader.go: the test of `decodeBlock` for a name that overruns the payload.
use r_dns_crawler.Base.{
  ℕ, suc, ◌+◌, ◌-◌, ◌^◌, ◌≤◌, ◌<◌, ◌≡◌, [], ◌∷◌, ◌++◌, Bytes, length, length-append, arith, true,
}
use r_dns_crawler.Base.Results.{err}
use r_dns_crawler.Store.Varint.{append_uvarint}
use r_dns_crawler.Store.Block.RoundTrip.{read_uvarint-append}
use r_dns_crawler.Store.Block.{
  bad_ip_delta, bad_ptr_count, bad_name_len, panicked, name_size, read_names, read_ptr, read_status,
  read_record, decode_records, decode_block,
}

name_size_negative :
    (len off l : ℕ)
    → off ≤ len
    → len < 2 ^ 63
    → 2 ^ 63 ≤ l
    → l + len < 2 ^ 64
    → name_size len off l ≡ err panicked
unfolding name_size
name_size_negative len off l h1 h2 h3 h4 = ground arith

-- The start of a hit's record whose first name has the length `l`.
abbrev pub oversized_name : ℕ → ℕ → ℕ → Bytes → Bytes
oversized_name ip count l rest =
    append_uvarint [] ip ++ (0 ∷ (append_uvarint [] (suc count) ++ (append_uvarint [] l ++ rest)))

module _ (ip count l : ℕ) (rest : Bytes) (hip : ip < 2 ^ 64) (hcount : suc count < 2 ^ 64) where
  read_oversized_name :
      (len : ℕ)
      → length rest ≤ len
      → len < 2 ^ 63
      → 2 ^ 63 ≤ l
      → l + len < 2 ^ 64
      → read_record len true 0 (oversized_name ip count l rest) ≡ err panicked
  unfolding read_record read_status read_ptr read_names
  read_oversized_name len h1 h2 h3 h4 = rw (
    read_uvarint-append bad_ip_delta ip _ hip,
    read_uvarint-append bad_ptr_count (suc count) _ hcount,
    read_uvarint-append bad_name_len l rest (omega arith),
    name_size_negative len (len - length rest) l (omega arith) h2 h3 h4,
  )

stops :
    (raw : Bytes) (len : ℕ)
    → 0 < length raw
    → read_record len true 0 raw ≡ err panicked
    → decode_records len (length raw) true 0 raw ≡ ([], panicked)
unfolding decode_records
stops [] len h e = absurd (omega arith)
stops (b ∷ raw) len h e = rw (decode_records, e)

-- A payload that starts with a hit whose first name claims a length from 2 ^ 63 on (and not so near
-- 2 ^ 64 that the sum wraps round twice) makes `decodeBlock` panic in the slice expression, where
-- the test for an overrun was meant to return an error.
pub decode_block_panics :
    (ip count l : ℕ) (rest : Bytes)
    → ip < 2 ^ 64
    → suc count < 2 ^ 64
    → 2 ^ 63 ≤ l
    → length (oversized_name ip count l rest) < 2 ^ 63
    → l + length (oversized_name ip count l rest) < 2 ^ 64
    → decode_block (oversized_name ip count l rest) ≡ ([], panicked)
unfolding decode_block
decode_block_panics ip count l rest hip hcount h1 h2 h3 =
    stops (oversized_name ip count l rest) _ (omega (arith, behind))
      (read_oversized_name ip count l rest hip hcount _ (omega (arith, behind)) h2 h1 h3)
  where
    behind : length rest < length (oversized_name ip count l rest)
    behind = omega (
      arith,
      length-append (append_uvarint [] ip)
          (0 ∷ (append_uvarint [] (suc count) ++ (append_uvarint [] l ++ rest))),
      length-append (append_uvarint [] (suc count)) (append_uvarint [] l ++ rest),
      length-append (append_uvarint [] l) rest,
    )
