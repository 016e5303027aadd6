-- ===== src/Merge/Report.antt =====
-- internal/merge/merge.go, `RenderText`.
use r_dns_crawler.Base.{
  ℕ, ◌+◌, ◌%◌, ◌^◌, List, [], ◌∷◌, ◌++◌, Option, Bytes, codes, length, ltb, ◌==◌, if◌then◌else◌,
}
use r_dns_crawler.Base.Floats.{Floats, percent}
use r_dns_crawler.Base.Decimal.{decimal}
use r_dns_crawler.Base.Report.{Part, line, utf8, says, pad_left, pad_right, rule, when}
use r_dns_crawler.Model.Mask.{string}
use r_dns_crawler.Model.Status.{status_string}
use r_dns_crawler.Merge.Group.{group}
use r_dns_crawler.Merge.Run.{ShardResult, Totals}
use r_dns_crawler.Merge.Pairs.{merged_total}

-- The loop over the status codes, from `c` on; a status that does not occur has no line.
unfoldable pub status_lines : (fl : Floats) → (total c : ℕ) → List ℕ → List Part
unfolding pad_left pad_right
status_lines fl total c [] = []
status_lines fl total c (n ∷ counts) =
    let rest = status_lines fl total (c + 1) counts in
    if n == 0
    then rest
    else says (
        codes "    "
        ∷ pad_right 16 (status_string c)
        ∷ codes " "
        ∷ pad_left 14 (group n)
        ∷ codes "  "
        ∷ pad_left 6 (fl.format 2 (percent fl n total))
        ∷ codes "%"
        ∷ [])
      ∷ rest

unfoldable pub update_lines : Totals → List Part
update_lines t =
    line []
    ∷ line (codes "  Applied updates (relative to the baseline):")
    ∷ says (
        codes "    + "
        ∷ group t.state.gained
        ∷ codes " PTRs gained (previously non-resolving)"
        ∷ [])
    ∷ says (
        codes "    ~ "
        ∷ group t.state.ptr_changed
        ∷ codes " PTRs changed, "
        ∷ group t.state.ptr_unchanged
        ∷ codes " unchanged"
        ∷ [])
    ∷ says (
        codes "    - "
        ∷ group t.state.removed_auth
        ∷ codes " PTRs authoritatively removed (nxdomain/noerror_empty)"
        ∷ [])
    ∷ says (
        codes "    = "
        ∷ group t.state.grace_kept
        ∷ codes " PTRs kept through transient failures (grace policy)"
        ∷ [])
    ∷ when (ltb 0 t.state.missing_kept) (
        says (
          codes "    ! "
          ∷ group t.state.missing_kept
          ∷ codes " targets had no new observation (baseline kept)"
          ∷ [])
        ∷ [])

unfoldable pub oddities : Totals → List Part
oddities t = when (ltb 0 ((t.state.old_dups + t.new_dups + t.unexpected) % 2 ^ 64)) (
    line []
    ∷ says (
        codes "  Bookkeeping: "
        ∷ group t.state.old_dups
        ∷ codes " dup old | "
        ∷ group t.new_dups
        ∷ codes " dup new | "
        ∷ group t.unexpected
        ∷ codes " unexpected new (all skipped)"
        ∷ [])
    ∷ [])

-- `date` is the day of the newest new pass, which is the zero time without one.
unfoldable pub render_text :
    (fl : Floats)
    → (date : Option ℕ → Bytes) → (mask : ℕ) → (out_dir : Bytes) → List (ShardResult × Bytes)
    → Totals
    → List Part
unfolding status_lines update_lines oddities
render_text fl date mask out_dir shards t =
    let total = merged_total t.state.merged_counts in
    (rule 72 ∷ line (utf8 "  rDNS merge — re-crawl folded into baseline") ∷ rule 72 ∷ [])
    ++ (says (
          codes "  merged "
          ∷ decimal (length shards)
          ∷ utf8 " shard pairs → "
          ∷ out_dir
          ∷ codes " ("
          ∷ group total
          ∷ codes " records)"
          ∷ [])
        ∷ says (
            codes "  target set: "
            ∷ string mask
            ∷ codes " | dataset timestamp: "
            ∷ date t.created
            ∷ [])
        ∷ line []
        ∷ line (codes "  Merged dataset by status:")
        ∷ [])
    ++ status_lines fl total 0 t.state.merged_counts
    ++ update_lines t
    ++ oddities t
    ++ (rule 72 ∷ [])
