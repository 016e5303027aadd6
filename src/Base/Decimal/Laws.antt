-- ===== src/Base/Decimal/Laws.antt =====
-- Decimal prints: their digits and their value.
use r_dns_crawler.Base.Tests.{ltb, Bool-cases, ltb→lt}
use r_dns_crawler.Base.Text.{Bytes}
use r_dns_crawler.Base.Lists.{All, All-append, length, length-append}
use r_dns_crawler.Base.Decimal.{decimal_digits, decimal}
use Prim.Native.Nat.{ℕ, zero, suc, ◌+◌, ◌-◌, ◌*◌, ◌/◌, ◌%◌, ◌^◌, ◌<◌, ◌≤◌}
use mathlib.Core.Path.{◌≡◌, refl, subst, ◌∙◌}
use mathlib.Core.List.{[], ◌∷◌, ◌++◌}
use mathlib.Core.Logic.{inl, inr}
use native.Mathlib.Omega.{arith}
use native.Mathlib.Nat.{pow-succ'}

-- The value of digits behind a prefix.
abbrev pub value : ℕ → Bytes → ℕ
value v [] = v
value v (c ∷ s) = value (v * 10 + (c - 48)) s

abbrev pub Digits : Bytes → Type 0
Digits = All (λ c. (48 ≤ c) × (c < 58))

value-append : (v : ℕ) (s t : Bytes) → value v (s ++ t) ≡ value (value v s) t
value-append v [] t = refl
value-append v (c ∷ s) t = value-append (v * 10 + (c - 48)) s t

decimal_digits-Digits : (k n : ℕ) → Digits (decimal_digits k n)
unfolding decimal_digits
decimal_digits-Digits zero n = tt
decimal_digits-Digits (suc k) n = elim (Bool-cases (ltb n 10)) [
  | inl one ↦ let small : n < 10 = ltb→lt n 10 one in rw one ((omega arith, omega arith), tt)
  | inr more ↦ rw more (
      All-append _ (decimal_digits k (n / 10)) ((48 + n % 10) ∷ [])
        (decimal_digits-Digits k (n / 10)) ((omega arith, omega arith), tt))
]

value-decimal_digits : (k n : ℕ) → n < 10 ^ k → value 0 (decimal_digits k n) ≡ n
unfolding decimal_digits
value-decimal_digits zero n h = omega arith
value-decimal_digits (suc k) n h = elim (Bool-cases (ltb n 10)) [
  | inl one ↦ rw one (omega arith)
  | inr more ↦
      let room : n < 10 * 10 ^ k = subst (λ m. n < m) (pow-succ' 10 k) h in
      let front = value-decimal_digits k (n / 10) (omega arith) in
      rw more
        (value-append 0 (decimal_digits k (n / 10)) ((48 + n % 10) ∷ []) ∙ omega (arith, front))
]

length-decimal_digits : (k n : ℕ) → 0 < length (decimal_digits (suc k) n)
unfolding decimal_digits
length-decimal_digits k n = elim (Bool-cases (ltb n 10)) [
  | inl one ↦ rw one (omega arith)
  | inr more ↦
      rw more (omega (arith, length-append (decimal_digits k (n / 10)) ((48 + n % 10) ∷ [])))
]

pub decimal-Digits : (n : ℕ) → Digits (decimal n)
unfolding decimal
decimal-Digits n = decimal_digits-Digits 20 n

pub length-decimal : (n : ℕ) → 0 < length (decimal n)
unfolding decimal
length-decimal n = length-decimal_digits 19 n

-- A uint64 is the value of its digits.
pub value-decimal : (n : ℕ) → n < 2 ^ 64 → value 0 (decimal n) ≡ n
unfolding decimal
value-decimal n h = value-decimal_digits 20 n (omega arith)
