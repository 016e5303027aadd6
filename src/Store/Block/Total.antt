-- ===== src/Store/Block/Total.antt =====
-- internal/store/reader.go: the loop of `decodeBlock` on any payload.
use r_dns_crawler.Base.{
  ℕ, zero, suc, ◌≤◌, ◌<◌, ◌≡◌, ◌≢◌, ap, ◌∙◌, Bool, true, false, [], ◌∷◌, Bytes, length, drop,
  length-drop, ◌==◌, arith, Option-cases, Bool-cases, inl, inr,
}
use r_dns_crawler.Base.Results.{
  ok, err, Result-cases, Ensures, value, error, Ensures-bind, Ensures-mono, Ensures_ok, Ensures_err,
}
use r_dns_crawler.Model.Status.{code_has_ptr}
use r_dns_crawler.Store.Varint.{uvarint, uvarint_takes}
use r_dns_crawler.Store.Block.{
  Rec, Outcome, stuck, ScanError, read_uvarint, name_size, read_names, read_ptr, read_status,
  read_record, decode_records, decode_block,
}

abbrev IsReal : Outcome → Type 0
IsReal e = e ≢ stuck

abbrev LeavesLess {ℓ} : {A : Type ℓ} → ℕ → A × Bytes → Type 0
LeavesLess n p = length p.1 < n

read_uvarint-Ensures :
    (e : ScanError) (b : Bytes) → Ensures (LeavesLess (length b)) IsReal (read_uvarint e b)
unfolding read_uvarint
read_uvarint-Ensures e b = elim (Option-cases (uvarint b)) [
  | inl unread ↦ rw (read_uvarint, unread) (error (λ h. cc))
  | inr ((v, rest), got) ↦ rw (read_uvarint, got) (value (uvarint_takes b v rest got))
]

read_status-Ensures : (b : Bytes) → Ensures (LeavesLess (length b)) IsReal (read_status b)
unfolding read_status
read_status-Ensures [] = error (λ h. cc)
read_status-Ensures (sf ∷ b) = value (omega arith)

name_size-ne-stuck : (len off l : ℕ) → name_size len off l ≢ err stuck
unfolding name_size
name_size-ne-stuck len off l h = ground arith

name_size-Ensures : (len off l : ℕ) → Ensures (λ n. Unit {0}) IsReal (name_size len off l)
name_size-Ensures len off l = elim (Result-cases (name_size len off l)) [
  | inl (n, got) ↦ rw got (value tt)
  | inr (e, bad) ↦ rw bad (error (λ h. name_size-ne-stuck len off l (bad ∙ ap err h)))
]

module _ (len : ℕ) where
  read_names-Ensures :
      (ip count : ℕ) (raw : Bytes)
      → Ensures (LeavesLess (suc (length raw))) IsReal (read_names len ip count raw)
  unfolding read_names
  read_names-Ensures ip zero raw = value (omega arith)
  read_names-Ensures ip (suc count) raw = Ensures-bind (read_uvarint-Ensures _ raw) λ p hp.
      Ensures-bind (name_size-Ensures len _ p.0) λ n hn.
        Ensures-bind (read_names-Ensures ip count (drop n p.1))
          λ q hq. value (omega (arith, length-drop n p.1))

  read_ptr-Ensures :
      (ip status : ℕ) (raw : Bytes)
      → Ensures (LeavesLess (suc (length raw))) IsReal (read_ptr len ip status raw)
  unfolding read_ptr
  read_ptr-Ensures ip status raw = elim (Bool-cases (status == code_has_ptr)) [
    | inr miss ↦ rw (read_ptr, miss) (value (omega arith))
    | inl hit ↦
        rw (read_ptr, hit)
          (Ensures-bind (read_uvarint-Ensures _ raw)
            λ p hp. Ensures-mono (λ q hq. omega arith) (read_names-Ensures ip p.0 p.1))
  ]

  -- A round takes a byte at least.
  pub read_record-Ensures :
      (first : Bool) (prev : ℕ) (raw : Bytes)
      → Ensures (LeavesLess (length raw)) IsReal (read_record len first prev raw)
  unfolding read_record
  read_record-Ensures first prev raw = Ensures-bind (read_uvarint-Ensures _ raw) λ p hp.
      Ensures-bind (read_status-Ensures p.1)
        λ q hq. Ensures-bind (read_ptr-Ensures _ _ q.1) λ r hr. value (omega arith)

  pub read_record_takes :
      (first : Bool) (prev : ℕ) (raw : Bytes) (r : Rec) (left : Bytes)
      → read_record len first prev raw ≡ ok (r, left)
      → length left < length raw
  read_record_takes first prev raw r left h =
      Ensures_ok (r, left) (read_record-Ensures first prev raw) h

  decode_records-ne-stuck :
      (fuel : ℕ) (first : Bool) (prev : ℕ) (raw : Bytes)
      → length raw ≤ fuel
      → (decode_records len fuel first prev raw).1 ≢ stuck
  unfolding decode_records
  decode_records-ne-stuck fuel first prev [] hf = λ h. cc
  decode_records-ne-stuck zero first prev (b ∷ raw) hf = absurd (omega arith)
  decode_records-ne-stuck (suc fuel) first prev (b ∷ raw) hf =
      elim (Result-cases (read_record len first prev (b ∷ raw))) [
        | inr (e, bad) ↦
            rw (decode_records, bad) (Ensures_err e (read_record-Ensures first prev (b ∷ raw)) bad)
        | inl ((r, rest), got) ↦
            rw (decode_records, got)
              (decode_records-ne-stuck fuel false r.ip rest
                (omega (arith, read_record_takes first prev (b ∷ raw) r rest got)))
      ]

-- `decodeBlock` ends on every payload, well formed or not: its loop never runs out of rounds.
pub decode_block-ne-stuck : (raw : Bytes) → (decode_block raw).1 ≢ stuck
unfolding decode_block
decode_block-ne-stuck raw =
    decode_records-ne-stuck (length raw) (length raw) true 0 raw (omega arith)
