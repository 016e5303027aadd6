-- ===== src/Base/Decimal.antt =====
-- Decimal prints of uint64 values, as `%d` writes them.
pub mod Laws
use r_dns_crawler.Base.Tests.{ltb, if◌then◌else◌}
use r_dns_crawler.Base.Text.{Bytes}
use Prim.Native.Nat.{ℕ, zero, suc, ◌+◌, ◌/◌, ◌%◌, ◌<◌}
use mathlib.Core.Path.{◌≡◌}
use mathlib.Core.List.{[], ◌∷◌, ◌++◌}
use native.Mathlib.Omega.{arith}

-- So many digits at most.
unfoldable pub decimal_digits : ℕ → ℕ → Bytes
decimal_digits zero n = []
decimal_digits (suc k) n =
    let front = decimal_digits k (n / 10) in
    if ltb n 10 then (b'0' + n) ∷ [] else front ++ ((b'0' + n % 10) ∷ [])

-- A uint64 has at most 20 digits.
unfoldable pub decimal : ℕ → Bytes
unfolding decimal_digits
decimal n = decimal_digits 20 n

-- The three shapes of a byte.
pub decimal_byte :
    (n : ℕ)
    → n < 256
    → decimal n ≡ (
        if ltb n 10
        then (b'0' + n) ∷ []
        else if ltb n 100
        then (b'0' + n / 10) ∷ (b'0' + n % 10) ∷ []
        else (b'0' + n / 10 / 10) ∷ (b'0' + n / 10 % 10) ∷ (b'0' + n % 10) ∷ [])
unfolding decimal
decimal_byte n h = ground arith
