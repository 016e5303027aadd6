-- ===== src/Cmd/Setup/Laws.antt =====
-- cmd/rdns-crawler/main.go: the list of resolvers is fit for the pool, which cannot be empty.
use r_dns_crawler.Base.{
  ℕ, suc, ap, ◌∙◌, refl, ◌<◌, ◌≡◌, ◌≢◌, false, List, [], ◌∷◌, Option, some, none, Bytes, length,
  trim_space, split, ◌==◌, arith, Bool-cases, inl, inr, All,
}
use r_dns_crawler.Base.Results.{Result, ok, Ensures, value, error}
use r_dns_crawler.Base.Trim.{trim_space-trim_space}
use r_dns_crawler.Resolver.{ℤ, Resolver, add_server, normalise, has_colon, new_of, new}
use r_dns_crawler.Cmd.Setup.{
  is_skipped, listed, ResolversError, file_list, default_resolvers, resolver_list,
}

-- An entry that is trimmed and neither blank nor a comment.
abbrev pub IsKept : Bytes → Type 0
IsKept s = (is_skipped s ≡ false) × (trim_space s ≡ s)

listed-IsKept : (lines : List Bytes) → All IsKept (listed lines)
unfolding listed
listed-IsKept [] = tt
listed-IsKept (line ∷ lines) = elim (Bool-cases (is_skipped (trim_space line))) [
  | inl skip ↦ rw skip (listed-IsKept lines)
  | inr keep ↦ rw keep ((keep, trim_space-trim_space line), listed-IsKept lines)
]

add_server_kept :
    (s : Bytes) (rest : List Bytes)
    → is_skipped s ≡ false
    → length (add_server s rest) ≡ suc (length rest)
unfolding add_server
add_server_kept [] rest h = absurd (cc)
add_server_kept (c ∷ s) rest h = elim (Bool-cases (has_colon (c ∷ s))) [
  | inl port ↦ rw port (omega arith)
  | inr bare ↦ rw bare (omega arith)
]

length-normalise : (list : List Bytes) → All IsKept list → length (normalise list) ≡ length list
unfolding normalise
length-normalise [] kept = refl
length-normalise (s ∷ list) kept =
    rw kept.0.1
      (add_server_kept s (normalise list) kept.0.0 ∙ ap suc (length-normalise list kept.1))

new_of_some :
    (list : List Bytes) (retries : ℤ)
    → 0 < length list
    → (r : Resolver) × (new_of list retries ≡ ok r) × (r.servers ≡ list)
unfolding new_of
new_of_some [] retries some_server = absurd (omega arith)
new_of_some (s ∷ list) retries some_server = (_, refl, refl)

-- A list with an entry; if it comes from a file, its entries are kept ones, and the pool made of it
-- has a server for each.
abbrev pub IsUsable : ℤ → Option (Option Bytes) → List Bytes → Type 0
IsUsable retries none list = 0 < length list
IsUsable retries (some f) list =
    (0 < length list)
    × All IsKept list
    × (r : Resolver) × (new list retries ≡ ok r)
    × (length r.servers ≡ length list)

file_list-Ensures :
    (retries : ℤ) (f : Option Bytes) (list : List Bytes)
    → All IsKept list
    → Ensures (IsUsable retries (some f)) (λ e. some f ≢ none) (file_list list)
unfolding file_list new
file_list-Ensures retries f [] kept = error (λ e. cc)
file_list-Ensures retries f (s ∷ list) kept =
    let count = length-normalise (s ∷ list) kept in
    let made = new_of_some (normalise (s ∷ list)) retries (omega (arith, count)) in
    value (omega arith, kept, made.0, made.1, ap length made.2 ∙ count)

cons_first :
    (c : ℕ) (t : List Bytes) → 0 < length (elim t [ [] ↦ (c ∷ []) ∷ [] | p ∷ ps ↦ (c ∷ p) ∷ ps ])
cons_first c [] = omega arith
cons_first c (p ∷ ps) = omega arith

length-split : (s : Bytes) (sep : ℕ) → 0 < length (split s sep)
unfolding split
length-split [] sep = omega arith
length-split (c ∷ s) sep = elim (Bool-cases (c == sep)) [
  | inl here ↦ rw here (omega arith)
  | inr other ↦ rw other (cons_first c (split s sep))
]

flag_list-Ensures :
    (retries : ℤ) (blank resolvers : Bytes)
    → Ensures
        (IsUsable retries none)
        (λ e. ◌≢◌ {A = Option (Option Bytes)} none none)
        (elim blank as (λ t. Result ResolversError (List Bytes)) [
          | [] ↦ ok default_resolvers
          | c ∷ s ↦ ok (split resolvers b',')
        ])
flag_list-Ensures retries [] resolvers = value (omega arith)
flag_list-Ensures retries (c ∷ s) resolvers = value (length-split resolvers b',')

-- `resolverList` gives a list with at least one entry, or an error; the entries that come from a file
-- are trimmed and neither blank nor comments, and the resolver's `New` accepts them, with a server for
-- each entry; and without a file there is no error.
pub resolver_list_lem :
    (retries : ℤ) (resolvers_file : Option (Option Bytes)) (resolvers : Bytes)
    → Ensures
        (IsUsable retries resolvers_file)
        (λ e. resolvers_file ≢ none)
        (resolver_list resolvers_file resolvers)
unfolding resolver_list
resolver_list_lem retries (some none) resolvers = error (λ e. cc)
resolver_list_lem retries (some (some data_read)) resolvers =
    file_list-Ensures retries (some data_read) _ (listed-IsKept (split data_read b'\n'))
resolver_list_lem retries none resolvers =
    flag_list-Ensures retries (trim_space resolvers) resolvers
