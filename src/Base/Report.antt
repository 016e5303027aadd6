-- ===== src/Base/Report.antt =====
-- What the textual reports are made of. `text/tabwriter` aligns the cells of a table: its rows are
-- kept as they are.
use r_dns_crawler.Base.Tests.{ltb, if◌then◌else◌}
use r_dns_crawler.Base.Lists.{length}
use r_dns_crawler.Base.Text.{Bytes}
use r_dns_crawler.Base.Decimal.{decimal}
use Prim.Native.Char.{code as char_code}
use Prim.Native.String.{String}
use Prim.Native.Nat.{ℕ, zero, suc, ◌+◌, ◌-◌, ◌/◌, ◌%◌, ◌^◌}
use mathlib.Core.Bool.{Bool}
use mathlib.Core.List.{List, [], ◌∷◌, ◌++◌}

-- The bytes of a code point below 2 ^ 16.
unfoldable pub utf8_char : ℕ → Bytes
utf8_char c =
    if ltb c 128
    then c ∷ []
    else if ltb c 2048
    then (192 + c / 64) ∷ (128 + c % 64) ∷ []
    else (224 + c / 4096) ∷ (128 + c / 64 % 64) ∷ (128 + c % 64) ∷ []

-- The bytes of a literal.
unfoldable pub utf8 : String → Bytes
unfolding utf8_char
utf8 String.[] = []
utf8 (String.◌∷◌ c s) = utf8_char (char_code c) ++ utf8 s

pub data Part : Type 0 where
  line : Bytes → Part
  table : List (List Bytes) → Part

unfoldable pub pieces : List Bytes → Bytes
pieces [] = []
pieces (s ∷ ss) = s ++ pieces ss

unfoldable pub repeat : Bytes → ℕ → Bytes
repeat s zero = []
repeat s (suc n) = s ++ repeat s n

abbrev pub blanks : ℕ → Bytes
blanks n = repeat (b' ' ∷ []) n

-- `%*s` and `%-*s`.
unfoldable pub pad_left : ℕ → Bytes → Bytes
unfolding repeat
pad_left width s = blanks (width - length s) ++ s

unfoldable pub pad_right : ℕ → Bytes → Bytes
unfolding repeat
pad_right width s = s ++ blanks (width - length s)

unfoldable pub spaced : List ℕ → Bytes
spaced [] = []
spaced (n ∷ []) = decimal n
spaced (n ∷ k ∷ ns) = decimal n ++ (b' ' ∷ spaced (k ∷ ns))

-- `%v` of a slice of ints that are not negative.
unfoldable pub ints : List ℕ → Bytes
unfolding spaced
ints ns = (b'[' ∷ spaced ns) ++ (b']' ∷ [])

-- A line in pieces.
abbrev pub says : List Bytes → Part
says ss = line (pieces ss)

-- The rule above and below a report.
abbrev pub rule : ℕ → Part
rule n = line (repeat (b'=' ∷ []) n)

-- A line that is there on a condition.
abbrev pub when {ℓ} : {A : Type ℓ} → Bool → List A → List A
when b parts = if b then parts else []

-- `%d` of an int64, given as its bit pattern.
unfoldable pub int_text : ℕ → Bytes
int_text n = if ltb n (2 ^ 63) then decimal n else b'-' ∷ decimal (2 ^ 64 - n)
