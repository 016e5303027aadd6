-- ===== src/Compare/Join/Cells.antt =====
-- internal/compare/compare.go: the cells of the transition matrix.
use r_dns_crawler.Base.{
  ℕ, zero, suc, ◌+◌, ◌%◌, ◌^◌, ◌<◌, ◌≡◌, refl, ap, ◌∙◌, true, ◌&&◌, List, [], ◌∷◌, some, length,
  ltb, ◌==◌, if◌then◌else◌, arith, All,
}
use r_dns_crawler.Base.Counters.{count_at, count_at-bump_at, length-bump_at}
use r_dns_crawler.Compare.Join.{bump_row, bump_cell}

abbrev pub row : ℕ → List (List ℕ) → List ℕ
row i [] = []
row zero (r ∷ m) = r
row (suc i) (r ∷ m) = row i m

-- The counter of a transition, from an old status to a new one.
abbrev pub cell : (from to : ℕ) → List (List ℕ) → ℕ
cell from to m = count_at to (row from m)

abbrev pub IsMatrix : List (List ℕ) → Type 0
IsMatrix m = (length m ≡ 8) × All (λ r. length r ≡ 9) m

bump_row-IsMatrix :
    (i j : ℕ) (m : List (List ℕ))
    → All (λ r. length r ≡ 9) m
    → (length (bump_row i j m) ≡ length m) × All (λ r. length r ≡ 9) (bump_row i j m)
unfolding bump_row
bump_row-IsMatrix i j [] h = (refl, tt)
bump_row-IsMatrix zero j (r ∷ m) h = (refl, (length-bump_at j r ∙ h.0, h.1))
bump_row-IsMatrix (suc i) j (r ∷ m) h =
    let (same, rest) = bump_row-IsMatrix i j m h.1 in (ap suc same, (h.0, rest))

cell-bump_row :
    (i j a b : ℕ) (m : List (List ℕ))
    → i < length m
    → All (λ r. length r ≡ 9) m
    → j < 9
    → cell a b (bump_row i j m)
      ≡ (if (i == a) && (j == b) then (cell a b m + 1) % 2 ^ 64 else cell a b m)
unfolding bump_row
cell-bump_row i j a b [] hi h hj = absurd (omega arith)
cell-bump_row zero j zero b (r ∷ m) hi h hj = count_at-bump_at j b r (omega (arith, h.0))
cell-bump_row zero j (suc a) b (r ∷ m) hi h hj = ground arith
cell-bump_row (suc i) j zero b (r ∷ m) hi h hj = ground arith
cell-bump_row (suc i) j (suc a) b (r ∷ m) hi h hj =
    cell-bump_row i j a b m (omega arith) h.1 hj ∙ rw (suc_eq i a) refl
  where
    suc_eq : (i a : ℕ) → (suc i == suc a) ≡ (i == a)
    suc_eq i a = ground arith

-- What counting one transition does.
pub bump_cell_lem :
    (i j : ℕ) (m : List (List ℕ))
    → i < 8
    → j < 9
    → IsMatrix m
    → (m' : List (List ℕ)) × (bump_cell i j m ≡ some m')
      × IsMatrix m'
      × ((a b : ℕ)
          → cell a b m' ≡ (if (i == a) && (j == b) then (cell a b m + 1) % 2 ^ 64 else cell a b m))
unfolding bump_cell
bump_cell_lem i j m hi hj (rows, cols) =
    let (same, shape) = bump_row-IsMatrix i j m cols in
    let row_in : ltb i 8 ≡ true = ground arith in
    let col_in : ltb j 9 ≡ true = ground arith in
    (
      bump_row i j m,
      rw (row_in, col_in) refl,
      (same ∙ rows, shape),
      λ a b. cell-bump_row i j a b m (omega (arith, rows)) cols hj,
    )
