-- ===== src/Cmd/Cursor.antt =====
-- cmd/rdns-crawler/main.go: the checkpoint files next to the output. A file that cannot be read is
-- `none`; a file is replaced as a whole, by renaming.
pub mod Laws
use r_dns_crawler.Base.{
  ℕ, ◌+◌, ◌-◌, ◌*◌, ◌%◌, ◌^◌, Bool, true, false, ◌&&◌, List, [], ◌∷◌, ◌++◌, Option, some, none,
  Bytes, trim_space, trim_left, ltb, leb, ◌==◌, if◌then◌else◌,
}
use r_dns_crawler.Base.Decimal.{decimal}
use r_dns_crawler.Ipgen.Address.{int_to_ip, ip_to_int, is_digit}
use r_dns_crawler.Store.Targets.{default_target_checkpoint}

unfoldable pub write_cursor : ℕ → Bytes
write_cursor v = int_to_ip v ++ (10 ∷ [])

unfoldable pub read_cursor : (parse_v6 : Bytes → Bytes) → Option Bytes → Option ℕ
read_cursor parse_v6 none = none
read_cursor parse_v6 (some file) =
    let v = ip_to_int parse_v6 (trim_space file) in if v == 0 then none else some v

unfoldable pub write_count_cursor : (done total : ℕ) → Bytes
write_count_cursor done total = decimal done ++ (b'/' ∷ (decimal total ++ (10 ∷ [])))

-- The text before the first slash.
unfoldable pub before_slash : Bytes → Bytes
before_slash [] = []
before_slash (c ∷ s) = elim (c == b'/') [ true ↦ [] | false ↦ c ∷ before_slash s ]

-- `Sscanf` with `%d` into a uint64: the value and the number of the digits, and what follows them is
-- not read. No digit, or a value above the range, is an error.
unfoldable pub scan_end : (value digits : ℕ) → Option ℕ
scan_end value digits =
    if digits == 0 then none else if ltb value (2 ^ 64) then some value else none

unfoldable pub scan_uint : (value digits : ℕ) → Bytes → Option ℕ
unfolding scan_end
scan_uint value digits [] = scan_end value digits
scan_uint value digits (c ∷ s) = elim (is_digit c) [
  | true ↦ scan_uint (value * 10 + (c - b'0')) (digits + 1) s
  | false ↦ scan_end value digits
]

unfoldable pub read_count_cursor : Option Bytes → Option ℕ
read_count_cursor none = none
read_count_cursor (some file) = scan_uint 0 0 (trim_left (before_slash (trim_space file)))

-- `runCrawl`: where the walk starts with `--resume`, by the cursor, and without.
unfoldable pub crawl_start : (start : ℕ) → (resume : Bool) → Option ℕ → ℕ
crawl_start start false cursor = start
crawl_start start true none = start
crawl_start start true (some v) = (v + 1) % 2 ^ 32

-- `runRecrawl`: how many targets are skipped.
unfoldable pub recrawl_skip : (resume : Bool) → Option ℕ → ℕ
recrawl_skip false cursor = 0
recrawl_skip true none = 0
recrawl_skip true (some n) =
    if ltb default_target_checkpoint n then n - default_target_checkpoint else 0
