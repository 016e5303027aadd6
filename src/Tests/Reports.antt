-- ===== src/Tests/Reports.antt =====
-- The reports at concrete inputs, with natural numbers in the place of floats.
use r_dns_crawler.Base.{
  ◌⊎◌, ◌<◌, ◌≤◌, ◌++◌, ℕ, ◌+◌, ◌*◌, ◌/◌, ◌%◌, ◌^◌, ◌≡◌, refl, List, [], ◌∷◌, codes, ltb, leb, arith,
  bytes_eq,
}
use r_dns_crawler.Base.Counters.{zeros}
use r_dns_crawler.Base.Decimal.{decimal}
use r_dns_crawler.Base.Floats.{Floats}
use r_dns_crawler.Base.Results.{ok}
use r_dns_crawler.Model.Status.{status_string}
use r_dns_crawler.Store.Summary.{human_bytes}
use r_dns_crawler.Store.Summary.Laws.{InUnit, shown, human_bytes_lem}
use r_dns_crawler.Base.Report.{table}
use r_dns_crawler.Merge.Group.{group}
use r_dns_crawler.Compare.Join.Cells.{row}
use r_dns_crawler.Compare.Final.{row_cells, value_at}
use r_dns_crawler.Compare.Report.{render_row}

abbrev naturals : Floats
naturals = record {
  Float = ℕ;
  of_uint64 = λ n. n;
  of_int64 = λ n. n;
  mul = λ a b. a * b;
  div = λ a b. a / b;
  is_positive = λ a. ltb 0 a;
  le = λ a b. leb a b;
  to_uint64 = λ a. a % 2 ^ 64;
  format = λ digits a. decimal a;
}

-- Two gibibytes.
human_bytes_lem_example :
    ((2 ^ 31 < 1024) × (human_bytes naturals (2 ^ 31) ≡ ok (decimal (2 ^ 31) ++ codes " B")))
    ⊎ ((1024 ≤ 2 ^ 31)
        × (e : ℕ) × (c : ℕ) × InUnit (2 ^ 31) e c
        × (human_bytes naturals (2 ^ 31) ≡ ok (shown naturals (2 ^ 31) e c)))
human_bytes_lem_example = human_bytes_lem naturals (2 ^ 31) (omega arith)

-- Of nine targets that timed out two have names now, four still time out and three were not reached.
abbrev counters : List (List ℕ)
counters =
    zeros 9
    ∷ zeros 9
    ∷ zeros 9
    ∷ zeros 9
    ∷ zeros 9
    ∷ (2 ∷ 0 ∷ 0 ∷ 0 ∷ 0 ∷ 4 ∷ 0 ∷ 0 ∷ 3 ∷ [])
    ∷ zeros 9
    ∷ zeros 9
    ∷ []

size_text : human_bytes naturals (5 * 2 ^ 20 + 7) ≡ ok (codes "5 MB")
unfolding human_bytes decimal
size_text = refl

-- The names of the columns stand at the front, the targets without an answer at the end.
row_text :
    render_row naturals (λ counts. counts) (λ day. []) (row_cells 0 (row 5 counters)) 6
    ≡ table (
        (codes "    now has_ptr" ∷ codes "2" ∷ codes "33%" ∷ [])
        ∷ (codes "    now timeout" ∷ codes "4" ∷ codes "66%" ∷ [])
        ∷ (codes "    not crawled yet" ∷ codes "3" ∷ [] ∷ [])
        ∷ [])
unfolding render_row row_cells status_string bytes_eq value_at group decimal
row_text = refl
