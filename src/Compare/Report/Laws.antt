-- ===== src/Compare/Report/Laws.antt =====
-- internal/compare/compare.go: what the rows that the report reads say of the transition matrix.
use r_dns_crawler.Base.{
  ℕ, zero, suc, ◌+◌, ◌-◌, ◌%◌, ◌^◌, ◌<◌, ◌≤◌, ◌≡◌, refl, ◌∙◌, sym, subst, true, List, [], ◌∷◌,
  bytes_eq, length, ◌==◌, arith, All, Bool-cases, bool_eq, bool_eq→eq, inl, inr, ==→eq, ==→ne,
  eq→==, ne→==,
}
use r_dns_crawler.Base.Tables.{all_below, all_below→holds}
use r_dns_crawler.Base.Counters.{count_at, count_at-lt}
use r_dns_crawler.Model.Mask.{has}
use r_dns_crawler.Model.Status.{status_string}
use r_dns_crawler.Compare.Join.{missing_col}
use r_dns_crawler.Compare.Join.Cells.{row, cell}
use r_dns_crawler.Compare.Final.{column_name, row_cells, transitions, row_sum, crawled, value_at}
use r_dns_crawler.Compare.Report.{row_at, missing_key, crawled_cells}

-- Different columns have different names, the column `missing` included.
column_name_eq : (b c : ℕ) → b < 9 → c < 9 → bytes_eq (column_name b) (column_name c) ≡ (b == c)
column_name_eq b c hb hc = bool_eq→eq _ _ (
    all_below→holds 9 (λ j. bool_eq (bytes_eq (column_name b) (column_name j)) (b == j))
      (all_below→holds 9
        (λ i. all_below 9 (λ j. bool_eq (bytes_eq (column_name i) (column_name j)) (i == j)))
        (unfold all_below in unfold status_string in unfold bytes_eq in refl) b hb)
      c hc)

-- A row names no column before its first.
value_at-row_cells_before :
    (b to : ℕ) (counts : List ℕ)
    → b < to
    → to + length counts ≤ 9
    → value_at (column_name b) (row_cells to counts) ≡ 0
unfolding row_cells value_at
value_at-row_cells_before b to [] h low = refl
value_at-row_cells_before b to (n ∷ counts) h low =
    let rest = value_at-row_cells_before b (to + 1) counts (omega arith) (omega arith) in
    elim (Bool-cases (n == 0)) [
      | inl nought ↦ rw nought rest
      | inr some_left ↦
          rw
            (
              some_left,
              column_name_eq to b (omega arith) (omega arith),
              ne→== to b (λ e. absurd (omega (arith, e))),
            )
            rest
    ]

value_at-row_cells :
    (b i to : ℕ) (counts : List ℕ)
    → b ≡ to + i
    → i < length counts
    → to + length counts ≤ 9
    → value_at (column_name b) (row_cells to counts) ≡ count_at i counts
unfolding row_cells value_at
value_at-row_cells b i to [] at h low = absurd (omega arith)
value_at-row_cells b zero to (n ∷ counts) at h low = elim (Bool-cases (n == 0)) [
  | inl nought ↦ rw nought (
      value_at-row_cells_before b (to + 1) counts (omega arith) (omega arith)
      ∙ sym (==→eq n 0 nought))
  | inr some_left ↦
      rw (some_left, column_name_eq to b (omega arith) (omega arith), eq→== to b (omega arith)) refl
]
value_at-row_cells b (suc i) to (n ∷ counts) at h low =
    let rest = value_at-row_cells b i (to + 1) counts (omega arith) (omega arith) (omega arith) in
    elim (Bool-cases (n == 0)) [
      | inl nought ↦ rw nought rest
      | inr some_left ↦
          rw
            (
              some_left,
              column_name_eq to b (omega arith) (omega arith),
              ne→== to b (λ e. absurd (omega (arith, e))),
            )
            rest
    ]

named_missing : (to : ℕ) → to < 9 → bytes_eq (column_name to) missing_key ≡ (to == 8)
named_missing to h = column_name_eq to 8 h (omega arith)

-- The sum over the named cells leaves the last column out.
crawled_cells-row_cells :
    (k sum to : ℕ) (counts : List ℕ)
    → sum < 2 ^ 64
    → All (λ n. n < 2 ^ 64) counts
    → to + k ≡ 8
    → length counts ≡ suc k
    → crawled_cells sum (row_cells to counts)
      ≡ (sum + (row_sum counts + 2 ^ 64 - count_at k counts)) % 2 ^ 64
unfolding row_cells crawled_cells row_sum
crawled_cells-row_cells k sum to [] s small low len = absurd (omega arith)
crawled_cells-row_cells zero sum to (n ∷ []) s small low len = elim (Bool-cases (n == 0)) [
  | inl nought ↦ rw nought (omega (arith, ==→eq n 0 nought))
  | inr some_left ↦
      rw (some_left, named_missing to (omega arith), eq→== to 8 (omega arith))
        (omega (arith, small.0))
]
crawled_cells-row_cells zero sum to (n ∷ m ∷ counts) s small low len = absurd (omega arith)
crawled_cells-row_cells (suc k) sum to (n ∷ counts) s small low len =
    let rest = λ (from : ℕ) (below : from < 2 ^ 64).
      crawled_cells-row_cells k from (to + 1) counts below small.1 (omega arith) (omega arith) in
    let last = count_at-lt (2 ^ 64) k counts (omega arith) small.1 in
    elim (Bool-cases (n == 0)) [
      | inl nought ↦ rw nought (omega (arith, ==→eq n 0 nought, rest sum s, last))
      | inr some_left ↦
          rw
            (
              some_left,
              crawled_cells,
              named_missing to (omega arith),
              ne→== to 8 (λ e. absurd (omega (arith, e))),
            )
            (omega (arith, rest ((sum + n) % 2 ^ 64) (omega arith), last))
    ]

status_string_eq :
    (b c : ℕ) → b < 8 → c < 8 → bytes_eq (status_string b) (status_string c) ≡ (b == c)
status_string_eq b c hb hc =
    let named = column_name_eq b c (omega arith) (omega arith) in
    rw
      (
        ne→== b missing_col (λ e. absurd (omega (arith, e))),
        ne→== c missing_col (λ e. absurd (omega (arith, e))),
      )
      at named

-- The loop over the old statuses gives each status of the mask the row of its own code.
row_at-transitions :
    (n from a mask : ℕ) (m : List (List ℕ))
    → from ≤ a
    → a < from + n
    → from + n ≤ 8
    → has mask a ≡ true
    → row_at (status_string a) (transitions mask from n m) ≡ row_cells 0 (row a m)
unfolding row_at transitions
row_at-transitions zero from a mask m low high all chosen = absurd (omega arith)
row_at-transitions (suc n) from a mask m low high all chosen = elim (Bool-cases (from == a)) [
  | inl same ↦
      subst (λ c. row_at (status_string a) (transitions mask c (suc n) m) ≡ row_cells 0 (row a m))
        (sym (==→eq from a same))
        (rw (chosen, status_string_eq a a (omega arith) (omega arith), eq→== a a refl) refl)
  | inr other ↦
      let before = ==→ne from a other in
      let rest =
        row_at-transitions n (from + 1) a mask m (omega (arith, before)) (omega arith) (omega arith)
          chosen in
      elim (Bool-cases (has mask from)) [
        | inl here ↦ rw (here, status_string_eq from a (omega arith) (omega arith), other) rest
        | inr skipped ↦ rw skipped rest
      ]
]

-- For a status of the mask, a column and a matrix whose row for the status has nine uint64 counters:
-- under the status's name the map of transitions has the counter of the column under the column's
-- name, and the sum that the report takes over the cells that are not named "missing" is the number of crawled
-- targets that the headline counts.
pub transitions_lem :
    (mask a b : ℕ) (m : List (List ℕ))
    → a < 8
    → b < 9
    → has mask a ≡ true
    → length (row a m) ≡ 9
    → All (λ n. n < 2 ^ 64) (row a m)
    → (value_at (column_name b) (row_at (status_string a) (transitions mask 0 8 m)) ≡ cell a b m)
      × (crawled_cells 0 (row_at (status_string a) (transitions mask 0 8 m)) ≡ crawled (row a m))
unfolding crawled
transitions_lem mask a b m ha hb chosen len small =
    rw (row_at-transitions 8 0 a mask m (omega arith) (omega arith) (omega arith) chosen) (
      value_at-row_cells b b 0 (row a m) (omega arith) (omega (arith, len)) (omega (arith, len)),
      omega (arith, crawled_cells-row_cells 8 0 0 (row a m) (omega arith) small (omega arith) len),
    )
