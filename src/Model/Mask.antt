-- ===== src/Model/Mask.antt =====
-- internal/model/record.go: `StatusMask`, a bit set of status codes, its print and its parser.
pub mod Laws
use r_dns_crawler.Base.{
  ℕ, zero, suc, ◌^◌, ◌+◌, Bool, not, List, [], ◌∷◌, ◌++◌, some, none, Bytes, join, split,
  trim_space, bytes_nil, bit_and, bit_or, ◌==◌, if◌then◌else◌,
}
use r_dns_crawler.Base.Results.{Result, ok, err}
use r_dns_crawler.Model.Status.{num_status_codes, status_to_code, status_string}

-- `StatusMask.Has`: `1<<c` is a uint16, so it is 0 from 16 on; a uint16 mask has no such bit either.
unfoldable pub has : ℕ → ℕ → Bool
has m c = not (bit_and m (2 ^ c) == 0)

-- The loop of `StatusMask.String`, with `n` codes left from `c` on.
unfoldable pub string_parts : ℕ → ℕ → ℕ → List Bytes
unfolding has
string_parts m c zero = []
string_parts m c (suc n) =
    let rest = string_parts m (c + 1) n in if has m c then status_string c ∷ rest else rest

unfoldable pub string : ℕ → Bytes
unfolding string_parts
string m = join (string_parts m 0 num_status_codes) (b',' ∷ [])

pub data ParseError : Type 0 where
  unknown_status : Bytes → ParseError
  empty_list : ParseError

-- The loop over the parts; `m |= 1 << c`.
unfoldable pub parse_parts : List Bytes → ℕ → Result ParseError ℕ
parse_parts [] m = ok m
parse_parts (part ∷ parts) m =
    let skip = parse_parts parts m in
    let p = trim_space part in
    if bytes_nil p then skip else (elim (status_to_code p) [
      | none ↦ err (unknown_status p)
      | some c ↦ parse_parts parts (bit_or m (2 ^ c))
    ])

-- `ParseStatuses`.
unfoldable pub parse_statuses : Bytes → Result ParseError ℕ
unfolding parse_parts
parse_statuses csv = elim (parse_parts (split csv b',') 0) [
  | err e ↦ err e
  | ok m ↦ if m == 0 then err empty_list else ok m
]
