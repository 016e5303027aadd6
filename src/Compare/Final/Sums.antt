-- ===== src/Compare/Final/Sums.antt =====
-- internal/compare/compare.go: the sums over the rows of the transition matrix.
use r_dns_crawler.Base.{
  ℕ, zero, suc, ◌+◌, ◌%◌, ◌^◌, ◌<◌, ◌≡◌, refl, ap, ◌∙◌, true, false, not, List, [], ◌∷◌, some,
  length, ltb, ◌==◌, if◌then◌else◌, arith, All, Bool-cases, not-true, ltb→lt, inl, inr,
}
use r_dns_crawler.Base.Tables.{all_below, all_below→holds}
use r_dns_crawler.Base.Counters.{count_at}
use r_dns_crawler.Store.Block.{Rec}
use r_dns_crawler.Merge.Spec.{observation}
use r_dns_crawler.Compare.Load.{OldEnt}
use r_dns_crawler.Compare.Join.{bit, Joining, join_records, count_missing}
use r_dns_crawler.Compare.Join.Cells.{cell, row, IsMatrix}
use r_dns_crawler.Compare.Join.Counted.{column, moves, moving, AreTargets}
use r_dns_crawler.Compare.Join.Laws.{Small, join_records_lem}
use r_dns_crawler.Compare.Final.{row_sum}

sum_to : ℕ → (ℕ → ℕ) → ℕ
sum_to zero f = 0
sum_to (suc n) f = f 0 + sum_to n (λ b. f (suc b))

sum_to-add : (n : ℕ) (f g : ℕ → ℕ) → sum_to n (λ b. f b + g b) ≡ sum_to n f + sum_to n g
unfolding sum_to
sum_to-add zero f g = omega arith
sum_to-add (suc n) f g = omega (arith, sum_to-add n (λ b. f (suc b)) (λ b. g (suc b)))

sum_to-mod :
    (n : ℕ) (f g : ℕ → ℕ)
    → ((b : ℕ) → f b ≡ g b % 2 ^ 64)
    → sum_to n f % 2 ^ 64 ≡ sum_to n g % 2 ^ 64
unfolding sum_to
sum_to-mod zero f g h = refl
sum_to-mod (suc n) f g h =
    omega (arith, h 0, sum_to-mod n (λ b. f (suc b)) (λ b. g (suc b)) (λ b. h (suc b)))

sum_to-zero : (n : ℕ) → sum_to n (λ b. 0) ≡ 0
unfolding sum_to
sum_to-zero zero = refl
sum_to-zero (suc n) = omega (arith, sum_to-zero n)

sum_to_cong : (n : ℕ) (f g : ℕ → ℕ) → ((b : ℕ) → f b ≡ g b) → sum_to n f ≡ sum_to n g
unfolding sum_to
sum_to_cong zero f g h = refl
sum_to_cong (suc n) f g h =
    omega (arith, h 0, sum_to_cong n (λ b. f (suc b)) (λ b. g (suc b)) (λ b. h (suc b)))

-- One place of a sum counts one more.
sum_to_at : (n c : ℕ) → c < n → sum_to n (λ b. if c == b then 1 else 0) ≡ 1
unfolding sum_to
sum_to_at zero c h = absurd (omega arith)
sum_to_at (suc n) zero h = omega (
  arith,
  sum_to_cong n (λ b. if 0 == suc b then 1 else 0) (λ b. 0) (λ b. ground arith) ∙ sum_to-zero n,
)
sum_to_at (suc n) (suc c) h =
    let first : ◌≡◌ {A = ℕ} (if suc c == 0 then 1 else 0) 0 = ground arith in
    omega (
      arith,
      first,
      sum_to_cong n (λ b. if suc c == suc b then 1 else 0) (λ b. if c == b then 1 else 0)
            (λ b. ground arith)
          ∙ sum_to_at n c (omega arith),
    )

row_sum-sum_to : (r : List ℕ) → row_sum r ≡ sum_to (length r) (λ b. count_at b r) % 2 ^ 64
unfolding row_sum sum_to
row_sum-sum_to [] = refl
row_sum-sum_to (v ∷ r) = omega (arith, row_sum-sum_to r)

-- How many of the targets have a status.
abbrev pub with_status : ℕ → List OldEnt → ℕ
with_status a [] = 0
with_status a (e ∷ es) = let n = with_status a es in if e.status == a then n + 1 else n

-- No target is marked yet.
abbrev pub Unmarked : List OldEnt → Type 0
Unmarked = All (λ e. e.flags < 4)

column-lt :
    (ip : ℕ) (news : List Rec)
    → All (λ r. ltb r.status 9 ≡ true) news
    → column (observation ip news) < 9
column-lt ip [] h = omega arith
column-lt ip (r ∷ news) h = elim (Bool-cases (r.ip == ip)) [
  | inl same ↦ rw same (ltb→lt r.status 9 h.0)
  | inr differ ↦ rw differ (column-lt ip news h.1)
]

unmarked_lem : (e : OldEnt) → e.flags < 4 → bit e.flags 4 ≡ false
unmarked_lem e h =
    not-true (bit e.flags 4)
      (all_below→holds 4 (λ f. not (bit f 4)) (unfold all_below in refl) e.flags h)

-- Every target makes one transition.
sum_to-moving :
    (a : ℕ) (news : List Rec) (es : List OldEnt)
    → All (λ r. ltb r.status 9 ≡ true) news
    → Unmarked es
    → sum_to 9 (λ b. moving a b news es) ≡ with_status a es
sum_to-moving a news [] low h = sum_to-zero 9
sum_to-moving a news (e ∷ es) low h =
    sum_to_cong 9 _ (λ b. moving a b news es + one b) (λ b. ground arith)
    ∙ sum_to-add 9 (λ b. moving a b news es) one
    ∙ (elim (Bool-cases (e.status == a)) [
      | inl same ↦ rw same (
          omega (
            arith,
            sum_to-moving a news es low h.1,
            sum_to_cong 9 one (λ b. if to == b then 1 else 0)
                (λ b. rw (unmarked_lem e h.0, same) refl),
            sum_to_at 9 to (column-lt e.ip news low),
          ))
      | inr differ ↦ rw differ (
          omega (
            arith,
            sum_to-moving a news es low h.1,
            sum_to_cong 9 one (λ b. 0) (λ b. rw (unmarked_lem e h.0, differ) refl),
            sum_to-zero 9,
          ))
    ])
  where
    to : ℕ
    to = column (observation e.ip news)

    one : ℕ → ℕ
    one b = if moves a b (observation e.ip news) e then 1 else 0

pub row-length :
    (a : ℕ) (m : List (List ℕ)) → a < length m → All (λ r. length r ≡ 9) m → length (row a m) ≡ 9
row-length a [] h v = absurd (omega arith)
row-length zero (r ∷ m) h v = v.0
row-length (suc a) (r ∷ m) h v = row-length a m (omega arith) v.1

row_sum-cells :
    (a : ℕ) (m : List (List ℕ))
    → a < 8
    → IsMatrix m
    → row_sum (row a m) ≡ sum_to 9 (λ b. cell a b m) % 2 ^ 64
row_sum-cells a m h (rows, cols) =
    row_sum-sum_to (row a m)
    ∙ ap (λ n. sum_to n (λ b. cell a b m) % 2 ^ 64) (row-length a m (omega (arith, rows)) cols)

-- For targets in the strict order of their addresses, none marked yet, with a code and flags as
-- `loadOldTargets` sets them, an 8 by 9 matrix of uint64 counters, records of the new pass with a
-- status code of at most 8, and an old status: the join and the loop behind it do not panic, and
-- the sum of the row of the status grows, modulo 2 ^ 64, by the number of the targets that have it.
pub join_records-row_sum :
    (a : ℕ) (rs : List Rec) (s : Joining)
    → a < 8
    → All (λ r. ltb r.status 9 ≡ true) rs
    → AreTargets s.ents
    → Unmarked s.ents
    → IsMatrix s.matrix
    → Small s.matrix
    → (s' : Joining) × (m : List (List ℕ)) × (join_records rs s ≡ some s')
      × (count_missing s'.ents s'.matrix ≡ some m)
      × (row_sum (row a m) ≡ (row_sum (row a s.matrix) + with_status a s.ents) % 2 ^ 64)
join_records-row_sum a rs s h low v fresh shape small =
    let (s', m, run, missing, last, cells) = join_records_lem rs s low v shape small in
    let after =
      sum_to-mod 9 (λ b. cell a b m) (λ b. cell a b s.matrix + moving a b rs s.ents)
        (λ b. cells a b) in
    (
      s',
      m,
      run,
      missing,
      omega (
        arith,
        row_sum-cells a m h last,
        row_sum-cells a s.matrix h shape,
        after,
        sum_to-add 9 (λ b. cell a b s.matrix) (λ b. moving a b rs s.ents),
        sum_to-moving a rs s.ents low fresh,
      ),
    )
