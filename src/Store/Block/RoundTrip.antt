-- ===== src/Store/Block/RoundTrip.antt =====
-- internal/store/writer.go and reader.go: the payload of `flushBlock` under `decodeBlock`.
use r_dns_crawler.Base.{
  ℕ, zero, suc, ◌+◌, ◌-◌, ◌^◌, ◌≤◌, ◌<◌, ◌≡◌, refl, ap, ◌∙◌, Bool, true, false, not, List, [], ◌∷◌,
  ◌++◌, Option, some, none, Bytes, length, take, drop, take_of_append, drop_of_append,
  length-append, length-take-le, append_assoc, bit_and, ◌==◌, if◌then◌else◌, arith, All, All-take,
  map, Bool-cases, inl, inr, ◌&&◌,
}
use r_dns_crawler.Base.Results.{ok}
use r_dns_crawler.Base.Tables.{all_below, all_below→holds}
use r_dns_crawler.Model.Record.{Record}
use r_dns_crawler.Model.Status.{code, has_ptr}
use r_dns_crawler.Model.Status.Laws.{code-lt, has_ptr-code}
use r_dns_crawler.Store.Template.{encode_template, decode_template}
use r_dns_crawler.Store.Template.Laws.{IsPlain, decode_template-encode_template}
use r_dns_crawler.Store.Varint.{append_uvarint, uvarint-append_uvarint}
use r_dns_crawler.Store.Block.Total.{read_record_takes}
use r_dns_crawler.Store.Block.{
  max_ptr_names, status_mask, flag_fc_checked, flag_fc_match, Rec, status_flags, encode_names,
  encode_ptr, encode_delta, encode_record, encode_records, encode_block, finished, bad_name_len,
  bad_ptr_count, bad_ip_delta, ScanError, read_uvarint, name_size, read_names, read_ptr,
  read_status, decode_delta, read_record, decode_records, decode_block,
}

-- The subset of a record that the store keeps.
abbrev pub stored : Record → Rec
stored r = record {
  ip = r.ip_int;
  status = code r.status;
  ptr = if has_ptr r.status then take max_ptr_names r.ptr else [];
  fc_checked = elim r.f_cr_dns [ none ↦ false | some m ↦ true ];
  fc_match = elim r.f_cr_dns [ none ↦ false | some m ↦ m ];
}

-- An IPv4 address, and names free of the template's marker bytes.
pub record IsStorable (r : Record) : Type 0 where
  pub is_ipv4 : r.ip_int < 2 ^ 32
  pub plain : All (All IsPlain) r.ptr

pub read_uvarint-append :
    (e : ScanError) (v : ℕ) (rest : Bytes)
    → v < 2 ^ 64
    → read_uvarint e (append_uvarint [] v ++ rest) ≡ ok (v, rest)
unfolding read_uvarint
read_uvarint-append e v rest h = rw (uvarint-append_uvarint v rest h, read_uvarint)

name_size_inside :
    (len l rest : ℕ) → len < 2 ^ 63 → l + rest ≤ len → name_size len (len - (l + rest)) l ≡ ok l
unfolding name_size
name_size_inside len l rest hl h = ground arith

read_names_step :
    (len ip count : ℕ) (raw rest : Bytes) (l n : ℕ) {left : Bytes} {names : List Bytes}
    → read_uvarint bad_name_len raw ≡ ok (l, rest)
    → name_size len (len - length rest) l ≡ ok n
    → read_names len ip count (drop n rest) ≡ ok (names, left)
    → read_names len ip (suc count) raw ≡ ok (decode_template ip (take n rest) ∷ names, left)
unfolding read_names
read_names_step len ip count raw rest l n e1 e2 e3 = rw (e1, e2, e3)

module _ (len : ℕ) (hlen : len < 2 ^ 63) (ip : ℕ) (hip : ip < 2 ^ 32) where
  read_names-encode_names :
      (names : List Bytes) (rest : Bytes)
      → All (All IsPlain) names
      → length (encode_names ip names ++ rest) ≤ len
      → read_names len ip (length names) (encode_names ip names ++ rest) ≡ ok (names, rest)
  read_names-encode_names [] rest h fits = unfold read_names encode_names in refl
  read_names-encode_names (n ∷ names) rest h fits =
      read_names_step len ip (length names) _ (t ++ more) (length t) (length t) front size
        (rw drop_of_append (read_names-encode_names names rest h.1 (omega (arith, total))))
      ∙ ap (λ m. ok (m ∷ names, rest))
          (ap (decode_template ip) (take_of_append t more)
            ∙ decode_template-encode_template ip n hip h.0)
    where
      t : Bytes
      t = encode_template ip n

      more : Bytes
      more = encode_names ip names ++ rest

      whole : encode_names ip (n ∷ names) ++ rest ≡ append_uvarint [] (length t) ++ (t ++ more)
      whole = unfold encode_names in simp append_assoc

      total : length (append_uvarint [] (length t)) + (length t + length more) ≤ len
      total = omega (
        arith,
        ap length whole,
        length-append (append_uvarint [] (length t)) (t ++ more),
        length-append t more,
      )

      front :
          read_uvarint bad_name_len (encode_names ip (n ∷ names) ++ rest) ≡ ok (length t, t ++ more)
      front = rw whole (read_uvarint-append _ _ _ (omega (arith, total)))

      size : name_size len (len - length (t ++ more)) (length t) ≡ ok (length t)
      size =
          rw length-append
            (name_size_inside len (length t) (length more) hlen (omega (arith, total)))

  read_ptr-encode_ptr :
      (r : Record) (rest : Bytes)
      → r.ip_int ≡ ip
      → All (All IsPlain) r.ptr
      → length (encode_ptr r ++ rest) ≤ len
      → read_ptr len ip (code r.status) (encode_ptr r ++ rest) ≡ ok ((stored r).ptr, rest)
  unfolding read_ptr encode_ptr
  read_ptr-encode_ptr r rest same h fits = elim (Bool-cases (has_ptr r.status)) [
    | inr miss ↦ rw (has_ptr-code, miss)
    | inl hit ↦
        let names = take max_ptr_names r.ptr in
        let fits' : length ((append_uvarint [] (length names) ++ encode_names ip names) ++ rest)
            ≤ len =
          rw (hit, same) at fits in
        let body : length (encode_names ip names ++ rest) ≤ len = omega (
          arith,
          ap length (append_assoc (append_uvarint [] (length names)) (encode_names ip names) rest),
          length-append (append_uvarint [] (length names)) (encode_names ip names ++ rest),
          fits',
        ) in
        let few : length names < 2 ^ 64 = omega (arith, length-take-le max_ptr_names r.ptr) in
        rw
          (
            has_ptr-code,
            hit,
            same,
            append_assoc,
            read_uvarint-append bad_ptr_count (length names) _ few,
          )
          (read_names-encode_names names rest (All-take _ max_ptr_names r.ptr h) body)
  ]

flags_table :
    all_below 8 (λ c.
      let f0 = status_flags c none in
      let f1 = status_flags c (some false) in
      let f2 = status_flags c (some true) in
      (bit_and f0 status_mask == c)
      && (bit_and f1 status_mask == c)
      && (bit_and f2 status_mask == c)
      && (bit_and f0 flag_fc_checked == 0)
      && (bit_and f0 flag_fc_match == 0)
      && not (bit_and f1 flag_fc_checked == 0)
      && (bit_and f1 flag_fc_match == 0)
      && not (bit_and f2 flag_fc_checked == 0)
      && not (bit_and f2 flag_fc_match == 0))
    ≡ true
unfolding all_below status_flags
flags_table = refl

-- The status byte holds the code and both flags.
status_flags_fields :
    (c : ℕ) (fc : Option Bool)
    → c < 8
    → (bit_and (status_flags c fc) status_mask ≡ c)
      × (not (bit_and (status_flags c fc) flag_fc_checked == 0)
          ≡ elim fc [ none ↦ false | some m ↦ true ])
      × (not (bit_and (status_flags c fc) flag_fc_match == 0)
          ≡ elim fc [ none ↦ false | some m ↦ m ])
status_flags_fields c none h = ground (arith, all_below→holds 8 _ flags_table c h)
status_flags_fields c (some false) h = ground (arith, all_below→holds 8 _ flags_table c h)
status_flags_fields c (some true) h = ground (arith, all_below→holds 8 _ flags_table c h)

decode_delta-encode_delta :
    (first : Bool) (prev ip : ℕ)
    → prev < 2 ^ 32
    → ip < 2 ^ 32
    → (encode_delta first prev ip < 2 ^ 32)
      × (decode_delta first prev (encode_delta first prev ip) ≡ ip)
decode_delta-encode_delta first prev ip hp hi = ground arith

-- One round of the reader on one record of the writer.
module _ (len : ℕ) (hlen : len < 2 ^ 63) (first : Bool) (prev : ℕ) (hprev : prev < 2 ^ 32) where
  read_record-encode_record :
      (r : Record) (rest : Bytes)
      → IsStorable r
      → length (encode_record first prev r ++ rest) ≤ len
      → read_record len first prev (encode_record first prev r ++ rest) ≡ ok (stored r, rest)
  unfolding read_record read_status
  read_record-encode_record r rest v fits =
      let (ip_fits, ip_back) = decode_delta-encode_delta first prev r.ip_int hprev v.is_ipv4 in
      let (f0, f1, f2) = status_flags_fields (code r.status) r.f_cr_dns (code-lt r.status) in
      rw (
        whole,
        read_uvarint-append bad_ip_delta (encode_delta first prev r.ip_int) tail
            (omega (arith, ip_fits)),
        ip_back,
        f0,
        f1,
        f2,
        read_ptr-encode_ptr len hlen r.ip_int v.is_ipv4 r rest refl v.plain (omega (arith, total)),
      )
    where
      front : Bytes
      front = append_uvarint [] (encode_delta first prev r.ip_int)

      tail : Bytes
      tail = status_flags (code r.status) r.f_cr_dns ∷ (encode_ptr r ++ rest)

      whole : encode_record first prev r ++ rest ≡ front ++ tail
      whole = unfold encode_record in simp append_assoc

      total : length front + suc (length (encode_ptr r ++ rest)) ≤ len
      total = omega (arith, ap length whole, length-append front tail)

decode_records_step :
    (len fuel : ℕ) (first : Bool) (prev : ℕ) (raw : Bytes) (r : Rec) (rest : Bytes)
    → read_record len first prev raw ≡ ok (r, rest)
    → decode_records len (suc fuel) first prev raw ≡ (
      r ∷ (decode_records len fuel false r.ip rest).0,
      (decode_records len fuel false r.ip rest).1,
    )
unfolding decode_records
decode_records_step len fuel first prev [] r rest h =
    absurd (not_lt_zero (read_record_takes len first prev [] r rest h))
  where
    not_lt_zero : length rest < 0 → ⊥
    not_lt_zero lt = omega arith
decode_records_step len fuel first prev (b ∷ raw) r rest h = rw (decode_records, h)

module _ (len : ℕ) (hlen : len < 2 ^ 63) where
  front :
      (r : Record) (rs : List Record) (first : Bool) (prev : ℕ)
      → prev < 2 ^ 32
      → IsStorable r
      → length (encode_records first prev (r ∷ rs)) ≤ len
      → read_record len first prev (encode_records first prev (r ∷ rs))
        ≡ ok (stored r, encode_records false r.ip_int rs)
  unfolding encode_records
  front r rs first prev hp v fits =
      read_record-encode_record len hlen first prev hp r (encode_records false r.ip_int rs) v fits

  decode_records-encode_records :
      (rs : List Record) (fuel : ℕ) (first : Bool) (prev : ℕ)
      → prev < 2 ^ 32
      → All IsStorable rs
      → length (encode_records first prev rs) ≤ len
      → length (encode_records first prev rs) ≤ fuel
      → decode_records len fuel first prev (encode_records first prev rs)
        ≡ (map stored rs, finished)
  decode_records-encode_records [] fuel first prev hp h fits hf =
      unfold decode_records encode_records in refl
  decode_records-encode_records (r ∷ rs) zero first prev hp (v, vs) fits hf =
      absurd
        (omega (arith, read_record_takes len first prev _ _ _ (front r rs first prev hp v fits)))
  decode_records-encode_records (r ∷ rs) (suc fuel) first prev hp (v, vs) fits hf =
      let got = front r rs first prev hp v fits in
      let less = read_record_takes len first prev _ _ _ got in
      decode_records_step len fuel first prev _ (stored r) _ got
      ∙ ap (λ p. (stored r ∷ p.0, p.1))
          (decode_records-encode_records rs fuel false r.ip_int v.is_ipv4 vs (omega arith)
            (omega arith))

-- The records that `flushBlock` writes in one block come back from `decodeBlock`, in their order
-- and with nothing left over: the address, the code of the status, both flags of the forward
-- confirmation and, for a hit, the first 32 names. The payload must be shorter than 2 ^ 63 bytes,
-- and the names must hold no byte from 1 to 4.
pub decode_block-encode_block :
    (rs : List Record)
    → All IsStorable rs
    → length (encode_block rs) < 2 ^ 63
    → decode_block (encode_block rs) ≡ (map stored rs, finished)
unfolding decode_block encode_block
decode_block-encode_block rs h fits =
    decode_records-encode_records (length (encode_records true 0 rs)) fits rs _ true 0 (omega arith)
      h (omega arith) (omega arith)
