-- ===== src/Cmd/Printed.antt =====
-- cmd/rdns-crawler/main.go: the lines that `info` prints and the reports of `compare` and `merge`.
use r_dns_crawler.Base.{
  ℕ, ◌+◌, Bool, ◌&&◌, List, [], ◌∷◌, ◌++◌, Option, Bytes, codes, length, ltb, ◌==◌, if◌then◌else◌,
}
use r_dns_crawler.Base.Floats.{Floats, percent}
use r_dns_crawler.Base.Results.{Result, ok, ◌>>=◌}
use r_dns_crawler.Base.Decimal.{decimal}
use r_dns_crawler.Base.Report.{Part, line, says, pad_left, pad_right, when}
use r_dns_crawler.Model.Record.{Record}
use r_dns_crawler.Model.Mask.{parse_statuses}
use r_dns_crawler.Model.Status.{status_string, code_has_ptr, code_timeout}
use r_dns_crawler.Store.Codec.{Codec}
use r_dns_crawler.Store.Header.{Header, count}
use r_dns_crawler.Merge.Report as MergeReport
use r_dns_crawler.Compare.Load.{OldEnt}
use r_dns_crawler.Compare.Report.Whole as CompareReport
use r_dns_crawler.Cmd.Reports.{InfoTotals, recrawl_set}
use r_dns_crawler.Cmd.Passes.{PassError, pass_mask, run_compare, run_merge}

-- The line of a file: `base` is `filepath.Base`, and `date` the day of a Unix time.
unfoldable pub info_line : (base : Bytes → Bytes) → (date : ℕ → Bytes) → Bytes → Header → Part
info_line base date name h = says (
    pad_right 24 (base name)
    ∷ codes " shard "
    ∷ pad_left 2 (decimal h.shard_id)
    ∷ codes "/"
    ∷ decimal h.shards
    ∷ codes "  total="
    ∷ pad_right 12 (decimal h.total)
    ∷ codes " has_ptr="
    ∷ pad_right 12 (decimal (count h code_has_ptr))
    ∷ codes " timeout="
    ∷ pad_right 12 (decimal (count h code_timeout))
    ∷ codes " created="
    ∷ date h.created
    ∷ [])

unfoldable pub info_lines :
    (base : Bytes → Bytes) → (date : ℕ → Bytes) → List Bytes → List Header → List Part
unfolding info_line
info_lines base date [] hs = []
info_lines base date (name ∷ names) [] = []
info_lines base date (name ∷ names) (h ∷ hs) =
    info_line base date name h ∷ info_lines base date names hs

-- The statuses that occur, from the code `c` on.
unfoldable pub info_shares : (fl : Floats) → (total c : ℕ) → List ℕ → List Part
info_shares fl total c [] = []
info_shares fl total c (n ∷ counts) =
    let rest = info_shares fl total (c + 1) counts in
    if n == 0
    then rest
    else says (
        codes "  "
        ∷ pad_right 16 (status_string c)
        ∷ codes " "
        ∷ pad_right 13 (decimal n)
        ∷ codes " "
        ∷ pad_left 5 (fl.format 2 (percent fl n total))
        ∷ codes "%"
        ∷ [])
      ∷ rest

unfoldable pub set_line : (fl : Floats) → InfoTotals → List Part
set_line fl t =
    let n = recrawl_set t in
    when (ltb 0 t.total && ltb 0 n) (
      says (
        codes "  re-crawl target set (has_ptr+timeout): "
        ∷ decimal n
        ∷ codes " ("
        ∷ fl.format 1 (percent fl n t.total)
        ∷ codes "%)"
        ∷ [])
      ∷ [])

-- What `runInfo` prints for the files that it names and the headers that it read from them.
unfoldable pub info_text :
    (fl : Floats)
    → (base : Bytes → Bytes) → (date : ℕ → Bytes) → List Bytes
    → List Header
    → InfoTotals
    → List Part
unfolding info_lines info_shares set_line
info_text fl base date names hs t =
    info_lines base date names hs
    ++ (line []
        ∷ (if ltb 1 (length names)
            then says (
                codes "aggregate over "
                ∷ decimal (length names)
                ∷ codes " files: total="
                ∷ decimal t.total
                ∷ [])
            else says (codes "total=" ∷ decimal t.total ∷ []))
        ∷ [])
    ++ info_shares fl t.total 0 t.counts
    ++ set_line fl t

module _ (fl : Floats) (z : Codec) (pass : Bytes → List Bytes) where
  -- `runCompare` with its report: `days` computes `DaysBetween` from the times of the passes, and the
  -- sort of a histogram and of a row is a parameter. A `--top-tlds` below 0 counts as 0.
  unfoldable pub compare_report :
      (List OldEnt → List OldEnt)
      → (List (Bytes × ℕ) → List (Bytes × ℕ))
      → (date : ℕ → Bytes) → (days : ℕ → ℕ → fl.Float) → (top_tlds : ℕ) → (old new statuses : Bytes)
      → Result PassError (List Part)
  compare_report sort_ents sort_counts date days top_tlds old new statuses = do
    (old_info, new_info, c) ← run_compare z pass sort_ents old new statuses
    mask ← pass_mask (parse_statuses statuses)
    ok (
        CompareReport.render_text fl sort_counts date mask top_tlds old new
          (days old_info.created new_info.created) old_info new_info c)

  -- `runMerge` with its report.
  unfoldable pub merge_report :
      (List Record → List Record)
      → (in_place : ℕ → Bool) → (date : Option ℕ → Bytes) → (old new out statuses : Bytes)
      → (allow_partial : Bool) → Result PassError (List Part)
  merge_report sort_slice in_place date old new out statuses allow_partial = do
    (shards, t) ← run_merge z pass sort_slice in_place old new out statuses allow_partial
    mask ← pass_mask (parse_statuses statuses)
    ok (MergeReport.render_text fl date mask out shards t)
