-- ===== src/Merge/Names.antt =====
-- internal/merge/merge.go, `hashNames`; internal/compare/compare.go has the same function.
pub mod Sort
pub mod Laws
use r_dns_crawler.Base.{ℕ, ◌+◌, ◌*◌, ◌%◌, ◌^◌, bit_xor, List, [], ◌∷◌, Bytes, map}
use r_dns_crawler.Merge.Names.Sort.{sort_strings}
use r_dns_crawler.Base.Hosts.{to_lower, trim_dot}

abbrev pub offset64 : ℕ
offset64 = 14695981039346656037

abbrev pub prime64 : ℕ
prime64 = 1099511628211

-- The inner loop, on the bytes of one name.
unfoldable pub hash_name : ℕ → Bytes → ℕ
hash_name h [] = h
hash_name h (c ∷ s) = hash_name ((bit_xor h c * prime64) % 2 ^ 64) s

-- The outer loop: a zero byte ends each name.
unfoldable pub hash_list : ℕ → List Bytes → ℕ
unfolding hash_name
hash_list h [] = h
hash_list h (n ∷ ns) = hash_list ((bit_xor (hash_name h n) 0 * prime64) % 2 ^ 64) ns

abbrev pub normalise : Bytes → Bytes
normalise n = to_lower (trim_dot n)

unfoldable pub hash_names : List Bytes → ℕ
hash_names [] = 0
hash_names (n ∷ ns) = hash_list offset64 (sort_strings (map normalise (n ∷ ns)))
