-- ===== src/Ipgen/Reserved/Total.antt =====
-- internal/ipgen/ipgen.go: `TotalRoutableIPv4` and the addresses themselves.
use r_dns_crawler.Base.{
  ℕ, ◌+◌, ◌-◌, ◌^◌, ◌≤◌, ◌<◌, ◌≡◌, refl, Bool, true, false, not, List, [], ◌∷◌, length, arith, ap,
}
use r_dns_crawler.Ipgen.Reserved.{
  ReservedRange, reserved_ipv4_ranges, in_any, is_reserved, reserved_total, total_routable_ipv4,
}
use r_dns_crawler.Ipgen.Reserved.Laws.{
  picks, picks-eq, picks_congr, length-picks_all, length-picks_split, picks_skip,
}

-- The blocks lie one behind the other from `v` on, below `n`.
abbrev pub Ascending : ℕ → List ReservedRange → ℕ → Type 0
Ascending v [] n = v ≤ n
Ascending v (r ∷ rs) n = (v ≤ r.start) × (r.start ≤ r.end) × Ascending (r.end + 1) rs n

abbrev free : List ReservedRange → ℕ → Bool
free rs i = not (in_any rs i)

Ascending-le : (v : ℕ) (rs : List ReservedRange) (n : ℕ) → Ascending v rs n → v ≤ n
Ascending-le v [] n h = h
Ascending-le v (r ∷ rs) n h = omega (arith, Ascending-le (r.end + 1) rs n h.2)

-- Nothing below the first block is reserved.
in_any_below :
    (v : ℕ) (rs : List ReservedRange) (n i : ℕ) → Ascending v rs n → i < v → in_any rs i ≡ false
unfolding in_any
in_any_below v [] n i h lt = refl
in_any_below v (r ∷ rs) n i h lt = ground (arith, in_any_below (r.end + 1) rs n i h.2)

free_count :
    (rs : List ReservedRange) (v n : ℕ)
    → Ascending v rs n
    → length (picks (free rs) v (n - v)) + reserved_total rs ≡ n - v
unfolding reserved_total
free_count [] v n h =
    omega (arith, length-picks_all (free []) v (n - v) (λ i lo hi. unfold in_any in refl))
free_count (r ∷ rs) v n h = omega (
  arith,
  room,
  length-picks_split p v (n - v) (r.start - v) (omega (arith, room)),
  length-picks_all p v (r.start - v) (λ i lo hi. before i (omega arith)),
  ap length (
      picks_skip p r.start (n - r.start) (r.end + 1 - r.start) (omega (arith, room))
        (λ i lo hi. within i lo (omega arith))),
  ap length (picks_congr p (free rs) (r.end + 1) (n - (r.end + 1)) (λ i lo hi. behind i lo)),
  ap length start_eq,
  ap length end_eq,
  free_count rs (r.end + 1) n h.2,
)
  where
    p : ℕ → Bool
    p = free (r ∷ rs)

    room : r.end + 1 ≤ n
    room = Ascending-le (r.end + 1) rs n h.2

    before : (i : ℕ) → i < r.start → p i ≡ true
    before i lt = unfold in_any in ground (arith, in_any_below (r.end + 1) rs n i h.2)

    within : (i : ℕ) → r.start ≤ i → i ≤ r.end → p i ≡ false
    within i lo hi = unfold in_any in ground arith

    behind : (i : ℕ) → r.end + 1 ≤ i → p i ≡ free rs i
    behind i lo = unfold in_any in ground arith

    start_eq : picks p (v + (r.start - v)) (n - v - (r.start - v)) ≡ picks p r.start (n - r.start)
    start_eq = picks-eq p (omega (arith, h.0)) (omega (arith, h.0))

    end_eq :
        picks p (r.start + (r.end + 1 - r.start)) (n - r.start - (r.end + 1 - r.start))
        ≡ picks p (r.end + 1) (n - (r.end + 1))
    end_eq = picks-eq p (omega (arith, h.1)) (omega (arith, h.1, room))

blocks_Ascending : Ascending 0 reserved_ipv4_ranges (2 ^ 32)
blocks_Ascending = omega arith

-- Among the 2 ^ 32 addresses, the number of those that are not reserved is what
-- `TotalRoutableIPv4` computes from the block ends.
pub total_routable_ipv4_lem :
    length (picks (λ i. not (is_reserved i)) 0 (2 ^ 32)) ≡ total_routable_ipv4
unfolding total_routable_ipv4 is_reserved
total_routable_ipv4_lem = omega (arith, free_count reserved_ipv4_ranges 0 (2 ^ 32) blocks_Ascending)
