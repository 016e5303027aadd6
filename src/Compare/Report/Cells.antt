-- ===== src/Compare/Report/Cells.antt =====
-- internal/compare/compare.go: the rows that the report of a whole comparison reads.
use r_dns_crawler.Base.{ℕ, ◌<◌, ◌≡◌, true, List, Bytes, arith}
use r_dns_crawler.Base.Counters.{All-of_count_at}
use r_dns_crawler.Base.Results.{ok}
use r_dns_crawler.Model.Mask.{has}
use r_dns_crawler.Model.Status.{status_string}
use r_dns_crawler.Store.Codec.{Codec}
use r_dns_crawler.Compare.Load.{OldEnt}
use r_dns_crawler.Compare.Join.Cells.{row, cell}
use r_dns_crawler.Compare.Run.{Comparison, PassInfo, run}
use r_dns_crawler.Compare.Final.{column_name, transitions, crawled, value_at}
use r_dns_crawler.Compare.Final.Sums.{row-length}
use r_dns_crawler.Compare.Final.Whole.{run-IsBalanced}
use r_dns_crawler.Compare.Report.{row_at, crawled_cells}
use r_dns_crawler.Compare.Report.Laws.{transitions_lem}

-- A comparison that succeeds, a status of the mask and a column: under the status's name the map of
-- transitions has the counter of the column under the column's name, and the sum that the report
-- takes over the cells that are not named "missing" is the number of the crawled targets that
-- `finalize` computes from the row.
pub run-transitions :
    (z : Codec) (sort_ents : List OldEnt → List OldEnt) (mask : ℕ)
    (old_files new_files : List Bytes) (old new : PassInfo) (c : Comparison) (a b : ℕ)
    → run z sort_ents mask old_files new_files ≡ ok (old, new, c)
    → has mask a ≡ true
    → a < 8
    → b < 9
    → (let cells = row_at (status_string a) (transitions mask 0 8 c.state.matrix) in
        (value_at (column_name b) cells ≡ cell a b c.state.matrix)
        × (crawled_cells 0 cells ≡ crawled (row a c.state.matrix)))
run-transitions z sort_ents mask old_files new_files old new c a b h chosen ha hb =
    let v = run-IsBalanced z sort_ents mask old_files new_files old new c h in
    let m = c.state.matrix in
    transitions_lem mask a b m ha hb chosen (row-length a m (omega (arith, v.shape.0)) v.shape.1)
      (All-of_count_at _ (row a m) (v.small a))
