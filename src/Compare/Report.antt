-- ===== src/Compare/Report.antt =====
-- internal/compare/compare.go, `RenderText`, `renderRow`, `sortedStatusKeys` and `pctOf`.
pub mod Whole
pub mod Laws
pub mod Cells
use r_dns_crawler.Base.{
  ℕ, zero, suc, ◌+◌, ◌-◌, ◌%◌, ◌^◌, Bool, true, false, not, ◌&&◌, ◌||◌, List, [], ◌∷◌, ◌++◌, Option,
  some, none, Bytes, codes, bytes_eq, map, ltb, leb, ◌==◌, if◌then◌else◌,
}
use r_dns_crawler.Base.Floats.{Floats, percent}
use r_dns_crawler.Base.Decimal.{decimal}
use r_dns_crawler.Base.Hosts.{to_upper}
use r_dns_crawler.Base.Report.{Part, line, table, utf8, says, ints, rule, when}
use r_dns_crawler.Model.Mask.{string}
use r_dns_crawler.Model.Status.{
  num_status_codes, status_string, status_has_ptr, status_timeout, status_nx_domain,
  status_no_error_empty,
}
use r_dns_crawler.Merge.Group.{group}
use r_dns_crawler.Compare.Run.{Comparison, PassInfo}
use r_dns_crawler.Compare.Final.{Headline, headline, value_at, transitions, top_tlds}

abbrev pub missing_key : Bytes
missing_key = codes "missing"

-- A lookup in the map of maps; a status without a row has an empty one.
unfoldable pub row_at : Bytes → List (Bytes × List (Bytes × ℕ)) → List (Bytes × ℕ)
row_at k [] = []
row_at k ((j, cells) ∷ m) = if bytes_eq j k then cells else row_at k m

unfoldable pub has_key : Bytes → List (Bytes × ℕ) → Bool
has_key k [] = false
has_key k ((j, n) ∷ m) = bytes_eq j k || has_key k m

-- The loop of `sortedStatusKeys` from the code `c` on, with `n` codes left.
unfoldable pub keys_from : (c n : ℕ) → List (Bytes × ℕ) → List Bytes
unfolding has_key
keys_from c zero m = []
keys_from c (suc n) m =
    let rest = keys_from (c + 1) n m in
    if has_key (status_string c) m then status_string c ∷ rest else rest

unfoldable pub sorted_status_keys : List (Bytes × ℕ) → List Bytes
unfolding keys_from
sorted_status_keys m = keys_from 0 num_status_codes m

-- The cells other than `missing`.
unfoldable pub answered_cells : List (Bytes × ℕ) → List (Bytes × ℕ)
answered_cells [] = []
answered_cells ((k, n) ∷ cells) =
    let rest = answered_cells cells in if bytes_eq k missing_key then rest else (k, n) ∷ rest

-- The loop that adds up the cells of a row, in uint64.
unfoldable pub crawled_cells : ℕ → List (Bytes × ℕ) → ℕ
crawled_cells sum [] = sum
crawled_cells sum ((k, n) ∷ cells) =
    crawled_cells (if bytes_eq k missing_key then sum else (sum + n) % 2 ^ 64) cells

unfoldable pub pct_of : (fl : Floats) → (n total : ℕ) → Bytes
pct_of fl n total = if total == 0 then codes "-" else fl.format 2 (percent fl n total) ++ codes "%"

-- `slices.SortFunc` by count, and by name among equals, is a parameter; `date` is the day of a Unix
-- time.
module _ (fl : Floats) (sort_counts : List (Bytes × ℕ) → List (Bytes × ℕ)) (date : ℕ → Bytes) where
  unfoldable pub render_row : List (Bytes × ℕ) → (crawled : ℕ) → Part
  unfolding answered_cells pct_of
  render_row cells crawled =
      let m = value_at missing_key cells in
      table (
        map (λ it. (codes "    now " ++ it.0) ∷ group it.1 ∷ pct_of fl it.1 crawled ∷ [])
          (sort_counts (answered_cells cells))
        ++ when (ltb 0 m) ((codes "    not crawled yet" ∷ group m ∷ [] ∷ []) ∷ []))

  unfoldable pub pass_lines : (label path : Bytes) → PassInfo → List Part
  pass_lines label path p =
      says (label ∷ path ∷ [])
      ∷ says (
          codes "            "
          ∷ decimal p.files
          ∷ codes " files | "
          ∷ decimal p.shards
          ∷ codes " shards | "
          ∷ date p.created
          ∷ codes " | "
          ∷ group p.total_queried
          ∷ codes " IPs queried"
          ∷ [])
      ∷ []

  -- The line above the row of a status.
  unfoldable pub previously : (name : Bytes) → (targets crawled : ℕ) → List Part
  unfolding pct_of
  previously name targets crawled =
      line []
      ∷ says (
          codes "  Previously "
          ∷ name
          ∷ codes " ("
          ∷ group targets
          ∷ codes " targets, "
          ∷ group crawled
          ∷ utf8 " crawled — "
          ∷ pct_of fl crawled targets
          ∷ codes "):"
          ∷ [])
      ∷ []

  unfoldable pub timeout_part : Comparison → Headline fl → List (Bytes × ℕ) → List Part
  unfolding previously render_row pct_of
  timeout_part c h cells =
      let g = c.state.gained in
      when (ltb 0 h.timeout_targets) (
        previously (codes "TIMEOUT") h.timeout_targets h.timeout_crawled
        ++ (render_row cells h.timeout_crawled
            ∷ says (
                utf8 "    → "
                ∷ fl.format 2 h.timeout_now_ptr_pct
                ∷ codes "% of the crawled timeout set now yields a PTR hostname"
                ∷ [])
            ∷ says (
                utf8 "    → "
                ∷ fl.format 2 h.timeout_now_definitive
                ∷ codes "% now gives a definitive answer (has_ptr / nxdomain / noerror_empty)"
                ∷ [])
            ∷ when (ltb 0 g.fc_checked) (
                says (
                  utf8 "    → recovered PTRs forward-confirm (FCrDNS) at "
                  ∷ pct_of fl g.fc_match g.fc_checked
                  ∷ codes " ("
                  ∷ group g.fc_match
                  ∷ codes " of "
                  ∷ group g.fc_checked
                  ∷ codes " checked)"
                  ∷ [])
                ∷ [])))

  -- One round of the loop over the other statuses.
  unfoldable pub other_part :
      Comparison → List (Bytes × List (Bytes × ℕ)) → (st : Bytes) → List Part
  unfolding previously render_row pct_of crawled_cells row_at
  other_part c rows st =
      let cells = row_at st rows in
      let crawled = crawled_cells 0 cells in
      when (not (bytes_eq st status_has_ptr || bytes_eq st status_timeout)) (
        previously (to_upper st) (value_at st c.targets) crawled
        ++ (render_row cells crawled
            ∷ says (
                utf8 "    → "
                ∷ pct_of fl (value_at status_has_ptr cells) crawled
                ∷ codes " of the crawled "
                ∷ st
                ∷ codes " set now yields a PTR hostname"
                ∷ [])
            ∷ []))
