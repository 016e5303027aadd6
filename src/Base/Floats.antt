-- ===== src/Base/Floats.antt =====
-- The operations on float64 that the reports use. `of_int64` takes the bit pattern of an
-- int64, and `format d x` is `%.df` of `fmt`.
use r_dns_crawler.Base.Text.{Bytes}
use Prim.Native.Nat.{ℕ}
use mathlib.Core.Bool.{Bool}

pub record Floats : Type 1 where
  pub Float : Type 0
  pub of_uint64 : ℕ → Float
  pub of_int64 : ℕ → Float
  pub mul : Float → Float → Float
  pub div : Float → Float → Float
  pub is_positive : Float → Bool
  pub le : Float → Float → Bool
  pub to_uint64 : Float → ℕ
  pub format : (digits : ℕ) → Float → Bytes

-- `100 * float64(n) / float64(total)`.
abbrev pub percent : (fl : Floats) → (n total : ℕ) → fl.Float
percent fl n total = fl.div (fl.mul (fl.of_uint64 100) (fl.of_uint64 n)) (fl.of_uint64 total)
