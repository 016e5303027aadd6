-- ===== src/Store/Summary.antt =====
-- internal/store/writer.go, `PrintSummary`, `upct` and `humanBytes`, and `topN` of
-- internal/store/reader.go.
pub mod Laws
use r_dns_crawler.Base.{
  ℕ, zero, suc, ◌+◌, ◌*◌, ◌/◌, ◌%◌, ◌^◌, List, [], ◌∷◌, ◌++◌, Option, some, none, Bytes, codes, map,
  take, length, get_elem?, ltb, ◌==◌, if◌then◌else◌,
}
use r_dns_crawler.Base.Floats.{Floats, percent}
use r_dns_crawler.Base.Results.{Result, ok, err, ◌>>=◌}
use r_dns_crawler.Base.Decimal.{decimal}
use r_dns_crawler.Base.Report.{Part, line, table, utf8, pieces, pad_right, int_text, rule, when}
use r_dns_crawler.Model.Status.{status_string}
use r_dns_crawler.Store.Writer.{Writer}

-- How `humanBytes` fails: its loop has rounds left, or the letter is outside the string.
pub data SizeError : Type 0 where
  unfinished : SizeError
  out_of_range : ℕ → SizeError

-- The loop of `humanBytes`; `div` is an int64.
unfoldable pub units : (rounds m div exp : ℕ) → Result SizeError (ℕ × ℕ)
units zero m div exp = err unfinished
units (suc rounds) m div exp =
    let rest = units rounds (m / 1024) (div * 1024 % 2 ^ 64) (exp + 1) in
    if ltb m 1024 then ok (div, exp) else rest

unfoldable pub in_unit : (fl : Floats) → (n : ℕ) → ℕ × ℕ → Result SizeError Bytes
in_unit fl n (div, exp) = elim (get_elem? (codes "KMGTPE") exp) [
  | none ↦ err (out_of_range exp)
  | some c ↦ ok (fl.format 2 (fl.div (fl.of_int64 n) (fl.of_int64 div)) ++ (b' ' ∷ c ∷ b'B' ∷ []))
]

-- The size of a file, which is not negative. Seven rounds are enough for an int64.
unfoldable pub human_bytes : (fl : Floats) → ℕ → Result SizeError Bytes
unfolding units in_unit
human_bytes fl n =
    if ltb n 1024 then ok (decimal n ++ codes " B") else units 7 (n / 1024) 1024 0 >>= in_unit fl n

unfoldable pub upct : (fl : Floats) → (n total : ℕ) → Bytes
upct fl n total = if total == 0 then codes "0.0%" else fl.format 1 (percent fl n total) ++ codes "%"

-- The statuses that occur, from the code `c` on.
unfoldable pub status_rows : (fl : Floats) → (total c : ℕ) → List ℕ → List (List Bytes)
unfolding upct
status_rows fl total c [] = []
status_rows fl total c (n ∷ counts) =
    let rest = status_rows fl total (c + 1) counts in
    if n == 0
    then rest
    else ((codes "  " ++ status_string c) ∷ decimal n ∷ upct fl n total ∷ []) ∷ rest

unfoldable pub rate : (fl : Floats) → (seconds : fl.Float) → (total : ℕ) → fl.Float
rate fl seconds total =
    if fl.is_positive seconds then fl.div (fl.of_uint64 total) seconds else fl.of_uint64 0

-- `sort.Slice` by count, and by key among equals, is a parameter.
unfoldable pub top_n :
    (List (Bytes × ℕ) → List (Bytes × ℕ)) → List (Bytes × ℕ) → ℕ → List (Bytes × ℕ)
top_n sort_slice m n = take n (sort_slice m)

unfoldable pub check_rows : (fl : Floats) → Writer → List (List Bytes)
unfolding upct
check_rows fl w = when (ltb 0 w.fc_checked) (
    (codes "  FCrDNS match"
      ∷ (decimal w.fc_match ++ codes " / " ++ decimal w.fc_checked)
      ∷ upct fl w.fc_match w.fc_checked
      ∷ [])
    ∷ [])

-- `size` is the size of the file, unless `os.Stat` fails.
unfoldable pub disk_part : (fl : Floats) → (size : Option ℕ) → Writer → Result SizeError (List Part)
unfolding human_bytes
disk_part fl none w = ok []
disk_part fl (some size) w = do
  shown ← human_bytes fl size
  let per_rec =
      if ltb 0 w.total then fl.div (fl.of_int64 size) (fl.of_uint64 w.total) else fl.of_uint64 0
  ok (
      line []
      ∷ line (
          pieces (
            codes "  On disk: "
            ∷ shown
            ∷ codes " ("
            ∷ fl.format 3 per_rec
            ∷ codes " bytes / queried IP)"
            ∷ []))
      ∷ [])

-- The top-level domains; `print_tlds` gives no line without one.
unfoldable pub tld_lines : List (Bytes × ℕ) → List Part
unfolding pad_right pieces
tld_lines tlds =
    map (λ kv. line (pieces (codes "    ." ∷ pad_right 12 kv.0 ∷ codes " " ∷ int_text kv.1 ∷ [])))
      tlds

-- `seconds` is the time since the start, and `elapsed` its text.
unfoldable pub print_summary :
    (fl : Floats)
    → (List (Bytes × ℕ) → List (Bytes × ℕ))
    → (path elapsed : Bytes) → (seconds : fl.Float) → (size : Option ℕ) → Writer
    → Result SizeError (List Part)
unfolding status_rows rate check_rows disk_part tld_lines top_n
print_summary fl sort_slice path elapsed seconds size w = do
  disk ← disk_part fl size w
  ok (
      (line [] ∷ rule 68 ∷ line (utf8 "  rDNS-Crawler — results (.rdnsz v2)") ∷ rule 68 ∷ [])
      ++ (table (
            (codes "  Crawled"
              ∷ pieces (
                  decimal w.total
                  ∷ codes " IPs in "
                  ∷ elapsed
                  ∷ codes " ("
                  ∷ fl.format 0 (rate fl seconds w.total)
                  ∷ codes "/s)"
                  ∷ [])
              ∷ [])
            ∷ (status_rows fl w.total 0 w.counts ++ check_rows fl w))
          ∷ [])
      ++ disk
      ++ when (ltb 0 (length w.tld_counts)) (
          line []
          ∷ line (codes "  Top TLDs (of PTR hostnames):")
          ∷ tld_lines (top_n sort_slice w.tld_counts 10))
      ++ (line [] ∷ line (codes "  Output: " ++ path) ∷ rule 68 ∷ []))
