-- ===== src/Store/Template.antt =====
-- internal/store/template.go: a hostname with the record's own address cut out of it.
pub mod Laws
use r_dns_crawler.Base.{
  ℕ, zero, suc, ◌+◌, ◌-◌, ◌/◌, ◌%◌, ◌^◌, List, [], ◌∷◌, ◌++◌, some, none, Bytes, strip_prefix,
  length, flat_map, ltb, ◌==◌, if◌then◌else◌, codes,
}

abbrev pub m_fwd_dash : ℕ
m_fwd_dash = 1

abbrev pub m_rev_dash : ℕ
m_rev_dash = 2

abbrev pub m_fwd_dot : ℕ
m_fwd_dot = 3

abbrev pub m_rev_dot : ℕ
m_rev_dot = 4

-- `octets`: shifts and masks of a uint32, as quotients and remainders.
abbrev pub octets : ℕ → ℕ × ℕ × ℕ × ℕ
octets ip = (ip / 2 ^ 24, ip / 2 ^ 16 % 256, ip / 2 ^ 8 % 256, ip % 256)

-- `itoa`; `byte(…)` keeps the low eight bits.
unfoldable pub itoa : ℕ → Bytes
itoa v =
    if ltb v 10
    then ((b'0' + v) % 256) ∷ []
    else if ltb v 100
    then ((b'0' + v / 10) % 256) ∷ ((b'0' + v % 10) % 256) ∷ []
    else ((b'0' + v / 100) % 256) ∷ ((b'0' + v / 10 % 10) % 256) ∷ ((b'0' + v % 10) % 256) ∷ []

unfoldable pub join4 : ℕ → ℕ → ℕ → ℕ → Bytes → Bytes
join4 w x y z sep = itoa w ++ (sep ++ (itoa x ++ (sep ++ (itoa y ++ (sep ++ itoa z)))))

-- The loop of `strings.ReplaceAll` for a text `old` that is not empty: the first argument counts
-- the bytes of the last match that are still to be passed over.
unfoldable pub replace_from : ℕ → Bytes → Bytes → Bytes → Bytes
replace_from skip old new [] = []
replace_from (suc skip) old new (c ∷ s) = replace_from skip old new s
replace_from zero old new (c ∷ s) = elim (strip_prefix old (c ∷ s)) [
  | some t ↦ new ++ replace_from (length old - 1) old new s
  | none ↦ c ∷ replace_from 0 old new s
]

unfoldable pub replace_all : Bytes → Bytes → Bytes → Bytes
replace_all s old new = replace_from 0 old new s

unfoldable pub encode_template : ℕ → Bytes → Bytes
encode_template ip host =
    let (a, b, c, d) = octets ip in
    let host1 = replace_all host (join4 a b c d (b'-' ∷ [])) (m_fwd_dash ∷ []) in
    let host2 = replace_all host1 (join4 d c b a (b'-' ∷ [])) (m_rev_dash ∷ []) in
    let host3 = replace_all host2 (join4 a b c d (b'.' ∷ [])) (m_fwd_dot ∷ []) in
    replace_all host3 (join4 d c b a (b'.' ∷ [])) (m_rev_dot ∷ [])

-- What the `strings.Replacer` writes for one byte: all the texts that it replaces are single bytes.
unfoldable pub restore : ℕ → ℕ → Bytes
restore ip m =
    let (a, b, c, d) = octets ip in
    if m == m_fwd_dash
    then join4 a b c d (b'-' ∷ [])
    else if m == m_rev_dash
    then join4 d c b a (b'-' ∷ [])
    else if m == m_fwd_dot
    then join4 a b c d (b'.' ∷ [])
    else if m == m_rev_dot
    then join4 d c b a (b'.' ∷ [])
    else m ∷ []

unfoldable pub decode_template : ℕ → Bytes → Bytes
unfolding restore
decode_template ip s = flat_map (restore ip) s
