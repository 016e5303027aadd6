-- ===== src/Store/Summary/Laws.antt =====
-- internal/store/writer.go: the unit that `humanBytes` chooses.
use r_dns_crawler.Base.{
  ℕ, zero, suc, ◌*◌, ◌/◌, ◌^◌, ◌<◌, ◌≤◌, ◌≡◌, refl, Bool, [], ◌∷◌, ◌++◌, some, Bytes, codes, ◌⊎◌,
  get_elem?, ltb, arith, Bool-cases, ltb→lt, ltb→le, lt→ltb, inl, inr,
}
use r_dns_crawler.Base.Decimal.{decimal}
use r_dns_crawler.Base.Floats.{Floats}
use r_dns_crawler.Base.Results.{ok}
use r_dns_crawler.Store.Summary.{units, in_unit, human_bytes}

-- The unit `e` with its letter `c`, at the size `n`.
abbrev pub InUnit : (n e c : ℕ) → Type 0
InUnit n e c =
    (get_elem? (codes "KMGTPE") e ≡ some c) × (1024 * 1024 ^ e ≤ n) × (n < 1024 * 1024 * 1024 ^ e)

abbrev pub shown : (fl : Floats) → (n e c : ℕ) → Bytes
shown fl n e c =
    fl.format 2 (fl.div (fl.of_int64 n) (fl.of_int64 (1024 * 1024 ^ e))) ++ (b' ' ∷ c ∷ b'B' ∷ [])

-- The size after so many divisions.
abbrev scaled : ℕ → ℕ → ℕ
scaled n zero = n / 1024
scaled n (suc e) = scaled n e / 1024

abbrev below : ℕ → ℕ → Bool
below n e = ltb (scaled n e) 1024

units_lem :
    (n : ℕ)
    → 1024 ≤ n
    → n < 2 ^ 63
    → (e : ℕ) × (c : ℕ) × InUnit n e c × (units 7 (n / 1024) 1024 0 ≡ ok (1024 * 1024 ^ e, e))
unfolding units
units_lem n low high = elim (Bool-cases (below n 0)) [
  | inl k ↦ (0, b'K', (refl, low, omega (arith, ltb→lt _ _ k)), rw k refl)
  | inr k ↦ elim (Bool-cases (below n 1)) [
    | inl m ↦
        (1, b'M', (refl, omega (arith, ltb→le _ _ k), omega (arith, ltb→lt _ _ m)), rw (k, m) refl)
    | inr m ↦ elim (Bool-cases (below n 2)) [
      | inl g ↦ (
        2,
        b'G',
        (refl, omega (arith, ltb→le _ _ m), omega (arith, ltb→lt _ _ g)),
        rw (k, m, g) refl,
      )
      | inr g ↦ elim (Bool-cases (below n 3)) [
        | inl t ↦ (
          3,
          b'T',
          (refl, omega (arith, ltb→le _ _ g), omega (arith, ltb→lt _ _ t)),
          rw (k, m, g, t) refl,
        )
        | inr t ↦ elim (Bool-cases (below n 4)) [
          | inl p ↦ (
            4,
            b'P',
            (refl, omega (arith, ltb→le _ _ t), omega (arith, ltb→lt _ _ p)),
            rw (k, m, g, t, p) refl,
          )
          | inr p ↦ (
            5,
            b'E',
            (refl, omega (arith, ltb→le _ _ p), omega arith),
            rw (k, m, g, t, p, lt→ltb (scaled n 5) 1024 (omega arith)) refl,
          )
        ]
      ]
    ]
  ]
]

-- For every size below 2 ^ 63, which is each that an int64 holds and a file can have, `humanBytes` ends
-- without a panic: below 1024 it prints the number of bytes, and from 1024 on the size in the unit that
-- it is at least one and less than 1024 of, in two decimals and with the letter of the unit.
pub human_bytes_lem :
    (fl : Floats) (n : ℕ)
    → n < 2 ^ 63
    → ((n < 1024) × (human_bytes fl n ≡ ok (decimal n ++ codes " B")))
      ⊎ ((1024 ≤ n) × (e : ℕ) × (c : ℕ) × InUnit n e c × (human_bytes fl n ≡ ok (shown fl n e c)))
unfolding human_bytes
human_bytes_lem fl n high = elim (Bool-cases (ltb n 1024)) [
  | inl small ↦ inl (ltb→lt n 1024 small, rw small refl)
  | inr large ↦
      let low = ltb→le n 1024 large in
      let (e, c, known, run) = units_lem n low high in
      inr (low, e, c, known, rw (large, run, in_unit, known.0) refl)
]
