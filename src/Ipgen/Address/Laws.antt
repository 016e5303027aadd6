-- ===== src/Ipgen/Address/Laws.antt =====
-- internal/ipgen/ipgen.go: an address is read back from its print.
use r_dns_crawler.Base.{
  ℕ, suc, ◌+◌, ◌-◌, ◌*◌, ◌/◌, ◌%◌, ◌^◌, ◌≤◌, ◌<◌, ◌≡◌, refl, sym, ap, ◌∙◌, true, false, ◌&&◌, [],
  ◌∷◌, ◌++◌, some, Bytes, bytes_eq, length, ltb, ◌==◌, arith, Bool-cases, ◌⊎◌, ltb→lt, ltb→le, inl,
  inr, append-nil,
}
use r_dns_crawler.Base.Decimal.{decimal, decimal_byte}
use r_dns_crawler.Ipgen.Address.{
  int_to_ip, is_digit, scan_fields, dot_first, parse_ip, ip_to_int, v4_in_v6,
}

-- One, two or three digits.
byte_shape :
    (n : ℕ)
    → n < 256
    → ((n < 10) × (decimal n ≡ (48 + n) ∷ []))
      ⊎ (((10 ≤ n) × (n < 100) × (decimal n ≡ (48 + n / 10) ∷ (48 + n % 10) ∷ []))
          ⊎ ((100 ≤ n)
              × (decimal n ≡ (48 + n / 10 / 10) ∷ (48 + n / 10 % 10) ∷ (48 + n % 10) ∷ [])))
byte_shape n h = elim (Bool-cases (ltb n 10)) [
  | inl one ↦ inl (ltb→lt n 10 one, rw one at (decimal_byte n h))
  | inr more ↦ elim (Bool-cases (ltb n 100)) [
    | inl two ↦ inr (inl (ltb→le n 10 more, ltb→lt n 100 two, rw (more, two) at (decimal_byte n h)))
    | inr three ↦ inr (inr (ltb→le n 100 three, rw (more, three) at (decimal_byte n h)))
  ]
]

scan_digit :
    (fields : Bytes) (value digits d : ℕ) (s : Bytes)
    → d < 10
    → (digits == 1 && value == 0) ≡ false
    → value * 10 + d ≤ 255
    → scan_fields fields value digits ((48 + d) ∷ s)
      ≡ scan_fields fields (value * 10 + d) (digits + 1) s
unfolding scan_fields
scan_digit fields value digits d s h first small =
    let digit : is_digit (48 + d) ≡ true = ground arith in
    let val : (48 + d) - 48 ≡ d = omega arith in
    let fits : ltb 255 (value * 10 + ((48 + d) - 48)) ≡ false = ground arith in
    rw (digit, scan_fields, first, fits)
      (ap (λ x. scan_fields fields (value * 10 + x) (digits + 1) s) val)

-- The digits of a byte are one field.
scan_byte :
    (fields : Bytes) (n : ℕ) (s : Bytes)
    → n < 256
    → (digits : ℕ) × (scan_fields fields 0 0 (decimal n ++ s) ≡ scan_fields fields n (suc digits) s)
scan_byte fields n s h = elim (byte_shape n h) [
  | inl (one, shape) ↦
      let val : 0 * 10 + n ≡ n = omega arith in
      (
        0,
        ap (λ p. scan_fields fields 0 0 (p ++ s)) shape
            ∙ scan_digit fields 0 0 n s one refl (omega arith)
            ∙ ap (λ v. scan_fields fields v 1 s) val,
      )
  | inr (inl (some_tens, two, shape)) ↦
      let val : (0 * 10 + n / 10) * 10 + n % 10 ≡ n = omega arith in
      let lead : (1 == 1 && (0 * 10 + n / 10) == 0) ≡ false = ground arith in
      (
        1,
        ap (λ p. scan_fields fields 0 0 (p ++ s)) shape
            ∙ scan_digit fields 0 0 (n / 10) ((48 + n % 10) ∷ s) (omega arith) refl (omega arith)
            ∙ scan_digit fields (0 * 10 + n / 10) 1 (n % 10) s (omega arith) lead (omega arith)
            ∙ ap (λ v. scan_fields fields v 2 s) val,
      )
  | inr (inr (some_hundreds, shape)) ↦
      let val : ((0 * 10 + n / 10 / 10) * 10 + n / 10 % 10) * 10 + n % 10 ≡ n = omega arith in
      let lead : (1 == 1 && (0 * 10 + n / 10 / 10) == 0) ≡ false = ground arith in
      (
        2,
        ap (λ p. scan_fields fields 0 0 (p ++ s)) shape
            ∙ scan_digit fields 0 0 (n / 10 / 10) ((48 + n / 10 % 10) ∷ (48 + n % 10) ∷ s)
                (omega arith) refl (omega arith)
            ∙ scan_digit fields (0 * 10 + n / 10 / 10) 1 (n / 10 % 10) ((48 + n % 10) ∷ s)
                (omega arith) lead (omega arith)
            ∙ scan_digit fields ((0 * 10 + n / 10 / 10) * 10 + n / 10 % 10) 2 (n % 10) s
                (omega arith) refl (omega arith)
            ∙ ap (λ v. scan_fields fields v 3 s) val,
      )
]

scan_dot :
    (fields : Bytes) (value digits : ℕ) (s : Bytes)
    → (length fields == 3) ≡ false
    → scan_fields fields value (suc digits) (b'.' ∷ s) ≡ scan_fields (fields ++ (value ∷ [])) 0 0 s
unfolding scan_fields
scan_dot fields value digits s h = ground arith

scan_field :
    (fields : Bytes) (n : ℕ) (s : Bytes)
    → n < 256
    → (length fields == 3) ≡ false
    → scan_fields fields 0 0 (decimal n ++ (b'.' ∷ s)) ≡ scan_fields (fields ++ (n ∷ [])) 0 0 s
scan_field fields n s h short =
    let (digits, run) = scan_byte fields n (b'.' ∷ s) h in run ∙ scan_dot fields n digits s short

scan_last :
    (fields : Bytes) (n : ℕ)
    → n < 256
    → (length fields == 3) ≡ true
    → scan_fields fields 0 0 (decimal n) ≡ some (fields ++ (n ∷ []))
unfolding scan_fields
scan_last fields n h full =
    let (digits, run) = scan_byte fields n [] h in
    let some_digits : (suc digits == 0) ≡ false = ground arith in
    ap (scan_fields fields 0 0) (sym (append-nil (decimal n))) ∙ run ∙ rw (full, some_digits) refl

dot_first-digit : (d : ℕ) (s : Bytes) → d < 10 → dot_first ((48 + d) ∷ s) ≡ dot_first s
unfolding dot_first
dot_first-digit d s h = ground arith

dot_first-decimal : (n : ℕ) (s : Bytes) → n < 256 → dot_first (decimal n ++ (b'.' ∷ s)) ≡ true
dot_first-decimal n s h = elim (byte_shape n h) [
  | inl (one, shape) ↦ rw shape (dot_first-digit n _ one ∙ dot_first-dot s)
  | inr (inl (some_tens, two, shape)) ↦ rw shape (
      dot_first-digit (n / 10) ((48 + n % 10) ∷ (b'.' ∷ s)) (omega arith)
      ∙ dot_first-digit (n % 10) (b'.' ∷ s) (omega arith)
      ∙ dot_first-dot s)
  | inr (inr (some_hundreds, shape)) ↦ rw shape (
      dot_first-digit (n / 10 / 10) ((48 + n / 10 % 10) ∷ (48 + n % 10) ∷ (b'.' ∷ s)) (omega arith)
      ∙ dot_first-digit (n / 10 % 10) ((48 + n % 10) ∷ (b'.' ∷ s)) (omega arith)
      ∙ dot_first-digit (n % 10) (b'.' ∷ s) (omega arith)
      ∙ dot_first-dot s)
]
  where
    dot_first-dot : (s : Bytes) → dot_first (b'.' ∷ s) ≡ true
    dot_first-dot s = unfold dot_first in refl

-- The fields of a print.
module _ (a b c d : ℕ) (ha : a < 256) (hb : b < 256) (hc : c < 256) (hd : d < 256) where
  tail2 : Bytes
  tail2 = decimal c ++ (b'.' ∷ decimal d)

  tail1 : Bytes
  tail1 = decimal b ++ (b'.' ∷ tail2)

  scan_quad : scan_fields [] 0 0 (decimal a ++ (b'.' ∷ tail1)) ≡ some (a ∷ b ∷ c ∷ d ∷ [])
  unfolding tail1 tail2
  scan_quad =
      scan_field [] a tail1 ha refl
      ∙ scan_field (a ∷ []) b tail2 hb refl
      ∙ scan_field (a ∷ b ∷ []) c (decimal d) hc refl
      ∙ scan_last (a ∷ b ∷ c ∷ []) d hd refl

  parse_quad :
      (parse_v6 : Bytes → Bytes)
      → parse_ip parse_v6 (decimal a ++ (b'.' ∷ tail1)) ≡ v4_in_v6 ++ (a ∷ b ∷ c ∷ d ∷ [])
  unfolding parse_ip
  parse_quad parse_v6 = rw (dot_first-decimal a tail1 ha, parse_ip, scan_quad) refl

  quad_to_int :
      (parse_v6 : Bytes → Bytes)
      → ip_to_int parse_v6 (decimal a ++ (b'.' ∷ tail1)) ≡ a * 2 ^ 24 + b * 2 ^ 16 + c * 2 ^ 8 + d
  unfolding ip_to_int bytes_eq
  quad_to_int parse_v6 = rw (parse_quad parse_v6, ip_to_int) refl

-- For every uint32: `IPToInt` gives the address back that `IntToIP` prints, whatever `net.ParseIP`
-- does on texts with no dot before a colon or a percent sign.
pub ip_to_int-int_to_ip :
    (parse_v6 : Bytes → Bytes) (v : ℕ) → v < 2 ^ 32 → ip_to_int parse_v6 (int_to_ip v) ≡ v
unfolding int_to_ip tail1 tail2
ip_to_int-int_to_ip parse_v6 v h =
    let whole : v / 2 ^ 24 * 2 ^ 24 + v / 2 ^ 16 % 256 * 2 ^ 16 + v / 2 ^ 8 % 256 * 2 ^ 8 + v % 256
        ≡ v =
      omega arith in
    quad_to_int (v / 2 ^ 24) (v / 2 ^ 16 % 256) (v / 2 ^ 8 % 256) (v % 256) (omega arith)
      (omega arith) (omega arith) (omega arith) parse_v6
    ∙ whole
