-- ===== src/Store/Block.antt =====
-- One block's payload: internal/store/format.go, the encoding half of `flushBlock` in
-- internal/store/writer.go, and `decodeBlock` in internal/store/reader.go.
pub mod RoundTrip
pub mod Total
pub mod Panics
use r_dns_crawler.Base.{
  ℕ, zero, suc, ◌+◌, ◌-◌, ◌%◌, ◌^◌, Bool, true, false, not, List, [], ◌∷◌, ◌++◌, Option, some, none,
  Bytes, length, take, drop, bit_and, bit_or, ltb, ◌==◌, if◌then◌else◌,
}
use r_dns_crawler.Base.Results.{Result, ok, err, ◌>>=◌}
use r_dns_crawler.Model.Record.{Record}
use r_dns_crawler.Model.Status.{code, has_ptr, code_has_ptr}
use r_dns_crawler.Store.Template.{encode_template, decode_template}
use r_dns_crawler.Store.Varint.{append_uvarint, uvarint}

abbrev pub max_ptr_names : ℕ
max_ptr_names = 32

abbrev pub status_mask : ℕ
status_mask = 0x0f

abbrev pub flag_fc_checked : ℕ
flag_fc_checked = 16

abbrev pub flag_fc_match : ℕ
flag_fc_match = 32

-- `Rec`, a decoded stored record.
pub record Rec : Type 0 where
  pub ip : ℕ
  pub status : ℕ
  pub ptr : List Bytes
  pub fc_checked : Bool
  pub fc_match : Bool

-- The status byte of a record.
unfoldable pub status_flags : ℕ → Option Bool → ℕ
status_flags c none = bit_and c status_mask
status_flags c (some false) = bit_or (bit_and c status_mask) flag_fc_checked
status_flags c (some true) = bit_or (bit_or (bit_and c status_mask) flag_fc_checked) flag_fc_match

-- What the rounds of the loop over `names` append to `raw`.
unfoldable pub encode_names : ℕ → List Bytes → Bytes
encode_names ip [] = []
encode_names ip (n ∷ names) =
    let t = encode_template ip n in append_uvarint [] (length t) ++ (t ++ encode_names ip names)

-- `len(names) > maxPTRNames` cuts the slice; `take` changes no shorter list.
unfoldable pub encode_ptr : Record → Bytes
encode_ptr r =
    let names = take max_ptr_names r.ptr in
    if has_ptr r.status then append_uvarint [] (length names) ++ encode_names r.ip_int names else []

-- The distance to the record before it is a uint32; the first record has its whole address.
abbrev pub encode_delta : Bool → ℕ → ℕ → ℕ
encode_delta true prev ip = ip
encode_delta false prev ip = (ip + 2 ^ 32 - prev) % 2 ^ 32

-- What one round of the loop over `w.buf` appends to `raw`.
unfoldable pub encode_record : Bool → ℕ → Record → Bytes
encode_record first prev r =
    append_uvarint [] (encode_delta first prev r.ip_int)
    ++ (status_flags (code r.status) r.f_cr_dns ∷ encode_ptr r)

unfoldable pub encode_records : Bool → ℕ → List Record → Bytes
encode_records first prev [] = []
encode_records first prev (r ∷ rs) = encode_record first prev r ++ encode_records false r.ip_int rs

-- The payload of a block, its records sorted already.
unfoldable pub encode_block : List Record → Bytes
encode_block rs = encode_records true 0 rs

pub data ScanError : Type 0 where
  bad_ip_delta missing_status bad_ptr_count bad_name_len name_overruns : ScanError
  truncated_tail block_decompress header_short : ScanError

-- How a scan ends: with no error, with one, or in a run-time panic. `stuck` is no outcome of the
-- program: the model's loop ran out of fuel.
pub data Outcome : Type 0 where
  finished : Outcome
  failed : ScanError → Outcome
  panicked : Outcome
  stuck : Outcome

-- `n <= 0` is an error.
unfoldable pub read_uvarint : ScanError → Bytes → Result Outcome (ℕ × Bytes)
read_uvarint e b = elim (uvarint b) [ none ↦ err (failed e) | some (v, rest) ↦ ok (v, rest) ]

-- The length of `raw[off : off+int(l)]`. The sum is an int of 64 bits, so it may wrap below zero:
-- it passes the test then, and the slice expression panics.
unfoldable pub name_size : ℕ → ℕ → ℕ → Result Outcome ℕ
name_size len off l =
    let end = (off + l) % 2 ^ 64 in
    if ltb end (2 ^ 63)
    then (if ltb len end
        then err (failed name_overruns)
        else if ltb end off
        then err panicked
        else ok (end - off))
    else err panicked

unfoldable pub read_status : Bytes → Result Outcome (ℕ × Bytes)
read_status [] = err (failed missing_status)
read_status (sf ∷ rest) = ok (sf, rest)

-- `uint32(delta)`, on top of the record before.
abbrev pub decode_delta : Bool → ℕ → ℕ → ℕ
decode_delta true prev delta = delta % 2 ^ 32
decode_delta false prev delta = (prev + delta % 2 ^ 32) % 2 ^ 32

-- `len` is the length of the whole payload, so the offset is what has been read of it.
module _ (len : ℕ) where
  unfoldable pub read_names : ℕ → ℕ → Bytes → Result Outcome (List Bytes × Bytes)
  read_names ip zero raw = ok ([], raw)
  read_names ip (suc count) raw = do
    (l, rest) ← read_uvarint bad_name_len raw
    n ← name_size len (len - length rest) l
    (names, left) ← read_names ip count (drop n rest)
    ok (decode_template ip (take n rest) ∷ names, left)

  unfoldable pub read_ptr : ℕ → ℕ → Bytes → Result Outcome (List Bytes × Bytes)
  read_ptr ip status raw =
      if status == code_has_ptr
      then (do (count, rest) ← read_uvarint bad_ptr_count raw; read_names ip count rest)
      else ok ([], raw)

  -- One round of the loop of `decodeBlock`.
  unfoldable pub read_record : Bool → ℕ → Bytes → Result Outcome (Rec × Bytes)
  read_record first prev raw = do
    (delta, rest) ← read_uvarint bad_ip_delta raw
    let ip = decode_delta first prev delta
    (sf, rest') ← read_status rest
    let status = bit_and sf status_mask
    (names, left) ← read_ptr ip status rest'
    ok (
      record {
        ip = ip;
        status = status;
        ptr = names;
        fc_checked = not (bit_and sf flag_fc_checked == 0);
        fc_match = not (bit_and sf flag_fc_match == 0);
      },
      left,
    )

  -- The records handed to the callback, in order, and how the loop ended.
  unfoldable pub decode_records : ℕ → Bool → ℕ → Bytes → List Rec × Outcome
  decode_records fuel first prev [] = ([], finished)
  decode_records zero first prev (b ∷ raw) = ([], stuck)
  decode_records (suc fuel) first prev (b ∷ raw) = elim (read_record first prev (b ∷ raw)) [
    | err e ↦ ([], e)
    | ok (r, rest) ↦ let (rs, e) = decode_records fuel false r.ip rest in (r ∷ rs, e)
  ]

-- Each round takes bytes, so as many rounds as there are bytes are enough.
unfoldable pub decode_block : Bytes → List Rec × Outcome
decode_block raw = decode_records (length raw) (length raw) true 0 raw
