-- ===== src/Base/Text.antt =====
-- Byte strings: a Go string is the list of its bytes.
use Prim.Native.Nat.{ℕ}
use Prim.Native.Char.{code as char_code}
use Prim.Native.String.{String}
use mathlib.Core.Path.{◌≡◌, refl, ap, ◌∙◌}
use mathlib.Core.List.{List, [], ◌∷◌, ◌++◌}
use mathlib.Core.Bool.{Bool, true, false, ◌&&◌, ◌||◌}
use mathlib.Core.Logic.{◌≢◌}
use mathlib.Core.Option.{Option, none, some}
use native.Mathlib.Omega.{arith}
use r_dns_crawler.Base.Tests.{◌==◌, leb, if◌then◌else◌}
use r_dns_crawler.Base.Lists.{All}

abbrev pub Bytes : Type 0
Bytes = List ℕ

-- The bytes of an ASCII literal.
abbrev pub codes : String → Bytes
codes String.[] = []
codes (String.◌∷◌ c s) = char_code c ∷ codes s

-- `==` on strings.
unfoldable pub bytes_eq : Bytes → Bytes → Bool
bytes_eq [] [] = true
bytes_eq [] (b ∷ bs) = false
bytes_eq (a ∷ as') [] = false
bytes_eq (a ∷ as') (b ∷ bs) = a == b && bytes_eq as' bs

pub bytes_eq→eq : (s t : Bytes) → bytes_eq s t ≡ true → s ≡ t
unfolding bytes_eq
bytes_eq→eq [] [] h = refl
bytes_eq→eq [] (b ∷ bs) h = cc
bytes_eq→eq (a ∷ as') [] h = cc
bytes_eq→eq (a ∷ as') (b ∷ bs) h = ground (arith, bytes_eq→eq as' bs)

pub bytes_eq_refl : (s : Bytes) → bytes_eq s s ≡ true
unfolding bytes_eq
bytes_eq_refl [] = refl
bytes_eq_refl (a ∷ s) = ground (arith, bytes_eq_refl s)

-- What follows `p` in `s`, if `s` begins with `p`.
unfoldable pub strip_prefix : Bytes → Bytes → Option Bytes
strip_prefix [] s = some s
strip_prefix (a ∷ p) [] = none
strip_prefix (a ∷ p) (b ∷ s) = if a == b then strip_prefix p s else none

pub strip_prefix→eq : (p s : Bytes) {t : Bytes} → strip_prefix p s ≡ some t → s ≡ p ++ t
unfolding strip_prefix
strip_prefix→eq [] s h = ground arith
strip_prefix→eq (a ∷ p) [] h = cc
strip_prefix→eq (a ∷ p) (b ∷ s) {t} h = ground (arith, strip_prefix→eq p s {t = t})

pub strip_prefix-append : (p s : Bytes) → strip_prefix p (p ++ s) ≡ some s
unfolding strip_prefix
strip_prefix-append [] s = refl
strip_prefix-append (a ∷ p) s = ground (arith, strip_prefix-append p s)

-- `strings.Join`.
unfoldable pub join : List Bytes → Bytes → Bytes
join [] sep = []
join (p ∷ []) sep = p
join (p ∷ q ∷ ps) sep = p ++ (sep ++ join (q ∷ ps) sep)

abbrev cons_head : ℕ → List Bytes → List Bytes
cons_head c [] = (c ∷ []) ∷ []
cons_head c (p ∷ ps) = (c ∷ p) ∷ ps

-- `strings.Split` at a separator of one byte: there is always at least one part.
unfoldable pub split : Bytes → ℕ → List Bytes
split [] sep = [] ∷ []
split (c ∷ s) sep = let rest = split s sep in if c == sep then [] ∷ rest else cons_head c rest

abbrev pub Lacks : ℕ → Bytes → Type 0
Lacks b = All (λ c. c ≢ b)

split_of_Lacks : (p : Bytes) (sep : ℕ) → Lacks sep p → split p sep ≡ p ∷ []
unfolding split
split_of_Lacks [] sep h = refl
split_of_Lacks (c ∷ p) sep h = ground (arith, split_of_Lacks p sep h.1)

split-append :
    (p rest : Bytes) (sep : ℕ) → Lacks sep p → split (p ++ sep ∷ rest) sep ≡ p ∷ split rest sep
unfolding split
split-append [] rest sep h = ground arith
split-append (c ∷ p) rest sep h = ground (arith, split-append p rest sep h.1)

-- Splitting a join gives the parts back, if there is a part and none holds the separator.
pub split-join :
    (p : Bytes) (ps : List Bytes) (sep : ℕ)
    → All (Lacks sep) (p ∷ ps)
    → split (join (p ∷ ps) (sep ∷ [])) sep ≡ p ∷ ps
unfolding join
split-join p [] sep h = split_of_Lacks p sep h.0
split-join p (q ∷ ps) sep h = split-append p _ sep h.0 ∙ ap (λ l. p ∷ l) (split-join q ps sep h.1)

-- The encodings of `unicode.IsSpace` in one, two and three bytes: U+0085 and U+00A0; U+1680, U+2000 to
-- U+200A, U+2028, U+2029, U+202F, U+205F and U+3000.
unfoldable pub is_space : ℕ → Bool
is_space c = c == 32 || (leb 9 c && leb c 13)

unfoldable pub is_space2 : ℕ → ℕ → Bool
is_space2 a b = a == 194 && (b == 133 || b == 160)

unfoldable pub is_space3 : ℕ → ℕ → ℕ → Bool
is_space3 a b c =
    (a == 225 && (b == 154 && c == 128))
    || ((a == 226
          && (b == 128 && ((leb 128 c && leb c 138) || (c == 168 || (c == 169 || c == 175)))))
        || ((a == 226 && (b == 129 && c == 159)) || (a == 227 && (b == 128 && c == 128))))

-- The bytes that were read of a code point.
pub data Pending : Type 0 where
  start : Pending
  after : ℕ → Pending
  after2 : ℕ → ℕ → Pending

-- The text without the white space in front, behind the bytes that are pending.
unfoldable pub trim_from : Pending → Bytes → Bytes
trim_from start [] = []
trim_from (after a) [] = a ∷ []
trim_from (after2 a b) [] = a ∷ b ∷ []
trim_from start (a ∷ s) = elim (is_space a) [
  | true ↦ trim_from start s
  | false ↦ trim_from (after a) s
]
trim_from (after a) (b ∷ s) = elim (is_space2 a b) [
  | true ↦ trim_from start s
  | false ↦ trim_from (after2 a b) s
]
trim_from (after2 a b) (c ∷ s) = elim (is_space3 a b c) [
  | true ↦ trim_from start s
  | false ↦ a ∷ b ∷ c ∷ s
]

abbrev pub trim_left : Bytes → Bytes
trim_left s = trim_from start s

-- `s == ""`.
abbrev pub bytes_nil : Bytes → Bool
bytes_nil [] = true
bytes_nil (c ∷ s) = false

-- The text without what is only white space at its end.
unfoldable pub trim_right : Bytes → Bytes
trim_right [] = []
trim_right (c ∷ s) = if bytes_nil (trim_left (c ∷ s)) then [] else c ∷ trim_right s

-- `strings.TrimSpace`.
unfoldable pub trim_space : Bytes → Bytes
unfolding is_space is_space2 is_space3 trim_from trim_right
trim_space s = trim_right (trim_left s)
