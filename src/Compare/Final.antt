-- ===== src/Compare/Final.antt =====
-- internal/compare/compare.go, `finalize` and `rowSum`.
pub mod Sums
pub mod Shares
pub mod Whole
use r_dns_crawler.Base.{
  ℕ, zero, suc, ◌+◌, ◌-◌, ◌%◌, ◌^◌, Bool, true, false, List, [], ◌∷◌, Bytes, codes, bytes_eq, take,
  ◌==◌, ltb, if◌then◌else◌,
}
use r_dns_crawler.Base.Floats.{Floats, percent}
use r_dns_crawler.Base.Counters.{count_at}
use r_dns_crawler.Model.Mask.{has}
use r_dns_crawler.Model.Status.{
  num_status_codes, status_string, code_timeout, code_has_ptr, code_nx_domain, code_no_error_empty,
  code_serv_fail, code_refused, code_net_error, code_lame_delegation, status_timeout,
  status_has_ptr,
}
use r_dns_crawler.Compare.Join.{missing_col}
use r_dns_crawler.Compare.Join.Cells.{row}
use r_dns_crawler.Compare.Run.{Comparison}

abbrev pub column_name : ℕ → Bytes
column_name to = if to == missing_col then codes "missing" else status_string to

-- The loop over the columns of a row, from the column `to` on: a zero leaves no entry.
unfoldable pub row_cells : ℕ → List ℕ → List (Bytes × ℕ)
row_cells to [] = []
row_cells to (n ∷ counts) =
    let rest = row_cells (to + 1) counts in if n == 0 then rest else (column_name to, n) ∷ rest

-- The loop over the old statuses, with `n` of them left.
unfoldable pub transitions : ℕ → ℕ → ℕ → List (List ℕ) → List (Bytes × List (Bytes × ℕ))
unfolding row_cells
transitions mask from zero matrix = []
transitions mask from (suc n) matrix =
    let rest = transitions mask (from + 1) n matrix in
    if has mask from then (status_string from, row_cells 0 (row from matrix)) ∷ rest else rest

-- `slices.SortFunc` by count, and by name among equals, is a parameter; `TopTLDs` is 20 if it is not
-- positive.
unfoldable pub top_tlds :
    (List (Bytes × ℕ) → List (Bytes × ℕ)) → ℕ → List (Bytes × ℕ) → List (Bytes × ℕ)
top_tlds sort_tlds n tlds = take (if n == 0 then 20 else n) (sort_tlds tlds)

unfoldable pub row_sum : List ℕ → ℕ
row_sum [] = 0
row_sum (v ∷ counts) = (v + row_sum counts) % 2 ^ 64

-- The value of a key, 0 without one.
unfoldable pub value_at : Bytes → List (Bytes × ℕ) → ℕ
value_at k [] = 0
value_at k ((j, n) ∷ m) = if bytes_eq j k then n else value_at k m

-- The percentages are floats; all that the code does with them is in `fl`.
pub record Headline (fl : Floats) : Type 0 where
  pub timeout_targets : ℕ
  pub timeout_crawled : ℕ
  pub timeout_now_ptr_pct : fl.Float
  pub timeout_now_definitive : fl.Float
  pub timeout_still_timeout : fl.Float
  pub has_ptr_targets : ℕ
  pub has_ptr_crawled : ℕ
  pub ptr_unchanged_pct : fl.Float
  pub ptr_changed_pct : fl.Float
  pub ptr_removed_pct : fl.Float
  pub ptr_transient_pct : fl.Float
  pub changed_per_day_pct : fl.Float

-- `rowSum(row) - row[missingCol]`.
unfoldable pub crawled : List ℕ → ℕ
unfolding row_sum
crawled counts = (row_sum counts + 2 ^ 64 - count_at missing_col counts) % 2 ^ 64

-- The sums of cells of a row.
unfoldable pub definitive : List ℕ → ℕ
definitive to =
    (count_at code_has_ptr to + count_at code_nx_domain to + count_at code_no_error_empty to)
    % 2 ^ 64

unfoldable pub removed : List ℕ → ℕ
removed hp = (count_at code_nx_domain hp + count_at code_no_error_empty hp) % 2 ^ 64

unfoldable pub transient : List ℕ → ℕ
transient hp =
    (count_at code_timeout hp
      + count_at code_serv_fail hp
      + count_at code_refused hp
      + count_at code_net_error hp
      + count_at code_lame_delegation hp)
    % 2 ^ 64

-- A percentage of the crawled targets, 0 without one.
unfoldable pub share : (fl : Floats) → (n total : ℕ) → fl.Float
share fl n total = if total == 0 then fl.of_uint64 0 else percent fl n total

unfoldable pub per_day : (fl : Floats) → (days pct : fl.Float) → (total : ℕ) → fl.Float
per_day fl days pct total =
    if total == 0
    then fl.of_uint64 0
    else if fl.is_positive days
    then fl.div pct days
    else fl.of_uint64 0

-- The end of `finalize`; `days` is `DaysBetween`.
unfoldable pub headline : (fl : Floats) → (days : fl.Float) → Comparison → Headline fl
unfolding definitive removed transient share per_day
headline fl days c =
    let to = row code_timeout c.state.matrix in
    let hp = row code_has_ptr c.state.matrix in
    record {
      timeout_targets = value_at status_timeout c.targets;
      timeout_crawled = crawled to;
      timeout_now_ptr_pct = share fl (count_at code_has_ptr to) (crawled to);
      timeout_now_definitive = share fl (definitive to) (crawled to);
      timeout_still_timeout = share fl (count_at code_timeout to) (crawled to);
      has_ptr_targets = value_at status_has_ptr c.targets;
      has_ptr_crawled = crawled hp;
      ptr_unchanged_pct = share fl c.state.ptr_unchanged (crawled hp);
      ptr_changed_pct = share fl c.state.ptr_changed (crawled hp);
      ptr_removed_pct = share fl (removed hp) (crawled hp);
      ptr_transient_pct = share fl (transient hp) (crawled hp);
      changed_per_day_pct =
          per_day fl days (share fl c.state.ptr_changed (crawled hp)) (crawled hp);
    }
