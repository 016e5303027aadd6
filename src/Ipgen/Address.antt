-- ===== src/Ipgen/Address.antt =====
-- internal/ipgen/ipgen.go, `IntToIP` and `IPToInt`; internal/crawler/crawler.go has the second as
-- `ipToInt`. `net.ParseIP` on a text with a dot before any colon is the scan of the four fields; on
-- other texts it is the parameter `parse_v6`. An address is its bytes, and nil has none.
pub mod Laws
use r_dns_crawler.Base.{
  ℕ, zero, suc, ◌+◌, ◌-◌, ◌*◌, ◌/◌, ◌%◌, ◌^◌, Bool, true, false, ◌&&◌, List, [], ◌∷◌, ◌++◌, Option,
  some, none, Bytes, bytes_eq, length, take, drop, ltb, leb, ◌==◌, if◌then◌else◌,
}
use r_dns_crawler.Base.Decimal.{decimal}

unfoldable pub int_to_ip : ℕ → Bytes
int_to_ip v =
    decimal (v / 2 ^ 24)
    ++ (b'.'
        ∷ (decimal (v / 2 ^ 16 % 256)
            ++ (b'.' ∷ (decimal (v / 2 ^ 8 % 256) ++ (b'.' ∷ decimal (v % 256))))))

abbrev pub is_digit : ℕ → Bool
is_digit c = leb b'0' c && leb c b'9'

-- The scan of the fields: the fields so far, the value of the current one and its digits. No field
-- is empty, above 255 or begins with a zero before another digit, and there are four.
unfoldable pub scan_fields : (fields : Bytes) → (value digits : ℕ) → Bytes → Option Bytes
scan_fields fields value digits [] =
    if length fields == 3
    then (if digits == 0 then none else some (fields ++ (value ∷ [])))
    else none
scan_fields fields value digits (c ∷ s) = elim (is_digit c) [
  | true ↦ elim (digits == 1 && value == 0) [
    | true ↦ none
    | false ↦ elim (ltb 255 (value * 10 + (c - b'0'))) [
      | true ↦ none
      | false ↦ scan_fields fields (value * 10 + (c - b'0')) (digits + 1) s
    ]
  ]
  | false ↦ elim (c == b'.') [
    | false ↦ none
    | true ↦ elim (digits == 0) [
      | true ↦ none
      | false ↦ elim (length fields == 3) [
        | true ↦ none
        | false ↦ scan_fields (fields ++ (value ∷ [])) 0 0 s
      ]
    ]
  ]
]

-- Whether a dot stands before any colon or percent sign.
unfoldable pub dot_first : Bytes → Bool
dot_first [] = false
dot_first (c ∷ s) = elim (c == b'.') [
  | true ↦ true
  | false ↦ elim (c == b':') [
    | true ↦ false
    | false ↦ elim (c == b'%') [ true ↦ false | false ↦ dot_first s ]
  ]
]

abbrev v4_in_v6 : Bytes
v4_in_v6 = 0 ∷ 0 ∷ 0 ∷ 0 ∷ 0 ∷ 0 ∷ 0 ∷ 0 ∷ 0 ∷ 0 ∷ 255 ∷ 255 ∷ []

-- `IP.To4`.
unfoldable pub to4 : Bytes → Option Bytes
to4 ip =
    if length ip == 4
    then some ip
    else if length ip == 16 && bytes_eq (take 12 ip) v4_in_v6
    then some (drop 12 ip)
    else none

-- `IP.Equal`.
unfoldable pub ip_equal : Bytes → Bytes → Bool
ip_equal ip x =
    if length ip == length x
    then bytes_eq ip x
    else if length ip == 4 && length x == 16
    then bytes_eq (take 12 x) v4_in_v6 && bytes_eq ip (drop 12 x)
    else if length ip == 16 && length x == 4
    then bytes_eq (take 12 ip) v4_in_v6 && bytes_eq (drop 12 ip) x
    else false

-- The shifts of four bytes into a uint32.
unfoldable pub big_endian : Bytes → ℕ
big_endian (a ∷ b ∷ c ∷ d ∷ rest) = a * 2 ^ 24 + b * 2 ^ 16 + c * 2 ^ 8 + d
big_endian ip = 0

module _ (parse_v6 : Bytes → Bytes) where
  unfoldable pub parse_ip : Bytes → Bytes
  parse_ip s =
      if dot_first s
      then (elim (scan_fields [] 0 0 s) [ none ↦ [] | some fields ↦ v4_in_v6 ++ fields ])
      else parse_v6 s

  unfoldable pub ip_to_int : Bytes → ℕ
  unfolding to4 big_endian
  ip_to_int s = elim (to4 (parse_ip s)) [ none ↦ 0 | some ip ↦ big_endian ip ]
