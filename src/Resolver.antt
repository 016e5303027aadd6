-- ===== src/Resolver.antt =====
-- internal/resolver/resolver.go: DNS lookups over a rotating pool of servers.
pub mod Query
pub mod Lookup
use r_dns_crawler.Base.{
  ℕ, ◌+◌, ◌%◌, ◌^◌, Bool, true, false, ◌||◌, List, [], ◌∷◌, ◌++◌, Option, some, none, Bytes, codes,
  bytes_nil, length, get_elem?, ◌==◌, if◌then◌else◌, trim_space,
}
use r_dns_crawler.Base.Results.{Result, ok, err}

-- `strings.Contains(s, ":")`.
unfoldable pub has_colon : Bytes → Bool
has_colon [] = false
has_colon (c ∷ s) = c == b':' || has_colon s

-- The body of the loop of `New`.
unfoldable pub add_server : Bytes → List Bytes → List Bytes
add_server s rest =
    if bytes_nil s then rest else if has_colon s then s ∷ rest else (s ++ codes ":53") ∷ rest

unfoldable pub normalise : List Bytes → List Bytes
normalise [] = []
normalise (s ∷ ss) = add_server (trim_space s) (normalise ss)

-- An int, of which the source tests the sign.
pub data ℤ : Type 0 where
  pos : ℕ → ℤ
  negsuc : ℕ → ℤ

unfoldable pub clamp : ℤ → ℕ
clamp (pos n) = n
clamp (negsuc n) = 0

pub record Resolver : Type 0 where
  pub servers : List Bytes
  pub retries : ℕ

pub data NoResolvers : Type 0 where
  no_resolvers : NoResolvers

unfoldable pub new_of : List Bytes → ℤ → Result NoResolvers Resolver
new_of [] retries = err no_resolvers
new_of (s ∷ ss) retries = ok (record { servers = s ∷ ss; retries = clamp retries })

-- `New`; the timeout goes to the DNS client.
unfoldable pub new : List Bytes → ℤ → Result NoResolvers Resolver
unfolding new_of
new servers retries = new_of (normalise servers) retries

-- `pick`: `i` is the shared counter after the atomic increment. The pool is not empty.
unfoldable pub pick : List Bytes → ℕ → ℕ → Bytes
pick servers i offset = elim (get_elem? servers ((i + offset) % 2 ^ 64 % length servers)) [
  | some s ↦ s
  | none ↦ []
]
