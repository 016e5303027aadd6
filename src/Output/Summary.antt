-- ===== src/Output/Summary.antt =====
-- internal/output/output.go, `PrintSummary` and `pct`.
use r_dns_crawler.Base.{
  ℕ, ◌+◌, ◌^◌, Bool, true, false, List, [], ◌∷◌, ◌++◌, Option, some, none, Bytes, codes, join, map,
  length, ltb, ◌==◌, ◌&&◌, if◌then◌else◌,
}
use r_dns_crawler.Base.Floats.{Floats}
use r_dns_crawler.Base.Report.{Part, line, table, utf8, pieces, pad_right, int_text, rule, when}
use r_dns_crawler.Model.Record.{Record}
use r_dns_crawler.Model.Status.{status_string}
use r_dns_crawler.Output.{JsonWriter, top_n}

-- The counters are ints.
unfoldable pub pct : (fl : Floats) → (n total : ℕ) → Bytes
pct fl n total =
    if total == 0
    then codes "0.0%"
    else fl.format 1 (fl.div (fl.mul (fl.of_int64 100) (fl.of_int64 n)) (fl.of_int64 total))
      ++ codes "%"

unfoldable pub status_rows : (fl : Floats) → (total c : ℕ) → List ℕ → List (List Bytes)
unfolding pct
status_rows fl total c [] = []
status_rows fl total c (n ∷ counts) =
    let rest = status_rows fl total (c + 1) counts in
    if n == 0
    then rest
    else ((codes "  " ++ status_string c) ∷ int_text n ∷ pct fl n total ∷ []) ∷ rest

-- An int is positive.
abbrev positive : ℕ → Bool
positive n = ltb 0 n && ltb n (2 ^ 63)

unfoldable pub check_rows : (fl : Floats) → JsonWriter → List (List Bytes)
unfolding pct
check_rows fl w = when (positive w.fc_checked) (
    (codes "  FCrDNS match"
      ∷ (int_text w.fc_match ++ codes " / " ++ int_text w.fc_checked ++ codes " checked")
      ∷ pct fl w.fc_match w.fc_checked
      ∷ [])
    ∷ [])

unfoldable pub check_text : Option Bool → Bytes
check_text none = codes "-"
check_text (some true) = codes "match"
check_text (some false) = codes "no"

unfoldable pub sample_part : List Record → List Part
unfolding check_text
sample_part [] = []
sample_part (s ∷ samples) =
    line []
    ∷ line (codes "  Sample PTR records:")
    ∷ table (
        (codes "    IP" ∷ codes "PTR" ∷ codes "FCrDNS" ∷ [])
        ∷ map (λ r. (codes "    " ++ r.ip) ∷ join r.ptr (codes ", ") ∷ check_text r.f_cr_dns ∷ [])
            (s ∷ samples))
    ∷ []

unfoldable pub rate : (fl : Floats) → (seconds : fl.Float) → (total : ℕ) → fl.Float
rate fl seconds total =
    if fl.is_positive seconds then fl.div (fl.of_int64 total) seconds else fl.of_uint64 0

-- `seconds` is the time since the start, and `elapsed` its text.
unfoldable pub print_summary :
    (fl : Floats)
    → (List (Bytes × ℕ) → List (Bytes × ℕ))
    → (path elapsed : Bytes) → (seconds : fl.Float) → JsonWriter
    → List Part
unfolding status_rows check_rows sample_part rate
print_summary fl sort_slice path elapsed seconds w =
    (line [] ∷ rule 68 ∷ line (utf8 "  rDNS-Crawler — results") ∷ rule 68 ∷ [])
    ++ (table (
          (codes "  Crawled"
            ∷ pieces (
                int_text w.total
                ∷ codes " IPs in "
                ∷ elapsed
                ∷ codes " ("
                ∷ fl.format 0 (rate fl seconds w.total)
                ∷ codes "/s)"
                ∷ [])
            ∷ [])
          ∷ (status_rows fl w.total 0 w.by_code ++ check_rows fl w))
        ∷ [])
    ++ when (ltb 0 (length w.tld_counts)) (
        line []
        ∷ line (codes "  Top TLDs (of PTR hostnames):")
        ∷ map
            (λ kv.
              line (pieces (codes "    ." ∷ pad_right 12 kv.0 ∷ codes " " ∷ int_text kv.1 ∷ [])))
            (top_n sort_slice w.tld_counts 10))
    ++ sample_part w.samples
    ++ (line [] ∷ line (codes "  Output: " ++ path) ∷ rule 68 ∷ [])
