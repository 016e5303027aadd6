-- ===== src/Base/Counters.antt =====
-- Arrays of uint64 counters.
use r_dns_crawler.Base.Tests.{◌==◌, if◌then◌else◌}
use r_dns_crawler.Base.Lists.{length, All}
use Prim.Native.Nat.{ℕ, zero, suc, ◌+◌, ◌%◌, ◌^◌, ◌<◌}
use mathlib.Core.Path.{◌≡◌, refl, ap}
use mathlib.Core.List.{List, [], ◌∷◌}
use native.Mathlib.Omega.{arith}

-- `a[i]++`; the callers keep `i` inside the array.
unfoldable pub bump_at : ℕ → List ℕ → List ℕ
bump_at i [] = []
bump_at zero (n ∷ a) = ((n + 1) % 2 ^ 64) ∷ a
bump_at (suc i) (n ∷ a) = n ∷ bump_at i a

-- The counter at `i`, and 0 outside.
abbrev pub count_at : ℕ → List ℕ → ℕ
count_at i [] = 0
count_at zero (n ∷ a) = n
count_at (suc i) (n ∷ a) = count_at i a

abbrev pub zeros : ℕ → List ℕ
zeros zero = []
zeros (suc n) = 0 ∷ zeros n

pub length-bump_at : (i : ℕ) (a : List ℕ) → length (bump_at i a) ≡ length a
unfolding bump_at
length-bump_at i [] = refl
length-bump_at zero (n ∷ a) = refl
length-bump_at (suc i) (n ∷ a) = ap suc (length-bump_at i a)

-- Counting wraps at 2 ^ 64 and changes one counter.
pub count_at-bump_at :
    (i j : ℕ) (a : List ℕ)
    → i < length a
    → count_at j (bump_at i a) ≡ (if i == j then (count_at j a + 1) % 2 ^ 64 else count_at j a)
unfolding bump_at
count_at-bump_at i j [] h = absurd (omega arith)
count_at-bump_at zero zero (n ∷ a) h = refl
count_at-bump_at zero (suc j) (n ∷ a) h = ground arith
count_at-bump_at (suc i) zero (n ∷ a) h = ground arith
count_at-bump_at (suc i) (suc j) (n ∷ a) h = ground (arith, count_at-bump_at i j a (omega arith))

pub count_at-zeros : (n c : ℕ) → count_at c (zeros n) ≡ 0
count_at-zeros zero c = refl
count_at-zeros (suc n) zero = refl
count_at-zeros (suc n) (suc c) = count_at-zeros n c

pub All-of_count_at : (b : ℕ) (a : List ℕ) → ((c : ℕ) → count_at c a < b) → All (λ n. n < b) a
All-of_count_at b [] h = tt
All-of_count_at b (n ∷ a) h = (h 0, All-of_count_at b a (λ c. h (suc c)))

pub count_at-lt : (b c : ℕ) (a : List ℕ) → 0 < b → All (λ n. n < b) a → count_at c a < b
count_at-lt b c [] hb h = hb
count_at-lt b zero (n ∷ a) hb h = h.0
count_at-lt b (suc c) (n ∷ a) hb h = count_at-lt b c a hb h.1
