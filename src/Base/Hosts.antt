-- ===== src/Base/Hosts.antt =====
-- Hostname texts: lower case, the trailing dot and the last label, as `strings` computes them on
-- ASCII; and counters keyed by a text.
use r_dns_crawler.Base.Tests.{leb, ◌==◌, if◌then◌else◌}
use r_dns_crawler.Base.Text.{Bytes, codes, bytes_eq}
use Prim.Native.Nat.{◌%◌, ◌^◌, ℕ, ◌+◌, ◌-◌}
use mathlib.Core.Bool.{◌&&◌}
use mathlib.Core.List.{List, [], ◌∷◌, map}
use mathlib.Core.Option.{Option, none, some}

unfoldable pub lower : ℕ → ℕ
lower c = if leb b'A' c && leb c b'Z' then c + 32 else c

-- `strings.ToLower`.
unfoldable pub to_lower : Bytes → Bytes
unfolding lower
to_lower = map lower

unfoldable pub upper : ℕ → ℕ
upper c = if leb b'a' c && leb c b'z' then c - 32 else c

-- `strings.ToUpper`.
unfoldable pub to_upper : Bytes → Bytes
unfolding upper
to_upper = map upper

-- `strings.TrimSuffix(s, ".")`.
unfoldable pub trim_dot : Bytes → Bytes
trim_dot [] = []
trim_dot (c ∷ []) = if c == b'.' then [] else c ∷ []
trim_dot (c ∷ d ∷ s) = c ∷ trim_dot (d ∷ s)

-- `host[i+1:]` for `i := strings.LastIndex(host, ".")`, and `none` for `i < 0`.
unfoldable pub after_last_dot : Bytes → Option Bytes
after_last_dot [] = none
after_last_dot (c ∷ s) = elim (after_last_dot s) [
  | some t ↦ some t
  | none ↦ if c == b'.' then some s else none
]

-- `tldOf`: a dot at the end (`i == len(host)-1`) leaves nothing behind it.
unfoldable pub tld_of : Bytes → Bytes
unfolding to_lower trim_dot after_last_dot
tld_of host = elim (after_last_dot (trim_dot (to_lower host))) [
  | none ↦ codes "(none)"
  | some [] ↦ codes "(none)"
  | some (c ∷ t) ↦ c ∷ t
]

-- `m[k]++` on a map from texts to counters.
unfoldable pub bump_key : Bytes → List (Bytes × ℕ) → List (Bytes × ℕ)
bump_key k [] = (k, 1) ∷ []
bump_key k ((j, n) ∷ m) = if bytes_eq j k then (j, (n + 1) % 2 ^ 64) ∷ m else (j, n) ∷ bump_key k m

unfoldable pub bump_keys : List Bytes → List (Bytes × ℕ) → List (Bytes × ℕ)
unfolding bump_key
bump_keys [] m = m
bump_keys (k ∷ ks) m = bump_keys ks (bump_key k m)
