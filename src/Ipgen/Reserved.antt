-- ===== src/Ipgen/Reserved.antt =====
-- internal/ipgen/ipgen.go: the reserved IPv4 blocks.
pub mod Laws
pub mod Total
use r_dns_crawler.Base.{
  ℕ, ◌+◌, ◌-◌, ◌^◌, Bool, true, false, ◌&&◌, List, [], ◌∷◌, Option, some, none, leb, if◌then◌else◌,
}

-- An inclusive block of addresses.
pub record ReservedRange : Type 0 where
  pub start : ℕ
  pub end : ℕ

abbrev range : ℕ → ℕ → ReservedRange
range s e = record { start = s; end = e }

abbrev pub reserved_ipv4_ranges : List ReservedRange
reserved_ipv4_ranges =
    range 0 16777215
    ∷ range 167772160 184549375
    ∷ range 1681915904 1686110207
    ∷ range 2130706432 2147483647
    ∷ range 2851995648 2852061183
    ∷ range 2886729728 2887778303
    ∷ range 3221225472 3221225727
    ∷ range 3221225984 3221226239
    ∷ range 3227017984 3227018239
    ∷ range 3232235520 3232301055
    ∷ range 3323068416 3323199487
    ∷ range 3325256704 3325256959
    ∷ range 3405803776 3405804031
    ∷ range 3758096384 4026531839
    ∷ range 4026531840 4294967295
    ∷ []

abbrev pub inside : ReservedRange → ℕ → Bool
inside r v = leb r.start v && leb v r.end

-- The loop of `IsReserved`.
unfoldable pub in_any : List ReservedRange → ℕ → Bool
in_any [] v = false
in_any (r ∷ rs) v = if inside r v then true else in_any rs v

unfoldable pub is_reserved : ℕ → Bool
is_reserved v = in_any reserved_ipv4_ranges v

-- The loop that looks for the end of the block around `v`.
unfoldable pub block_end : List ReservedRange → ℕ → Option ℕ
block_end [] v = none
block_end (r ∷ rs) v = if inside r v then some r.end else block_end rs v

-- The loop of `TotalRoutableIPv4`.
unfoldable pub reserved_total : List ReservedRange → ℕ
reserved_total [] = 0
reserved_total (r ∷ rs) = (r.end - r.start + 1) + reserved_total rs

unfoldable pub total_routable_ipv4 : ℕ
unfolding reserved_total
total_routable_ipv4 = 2 ^ 32 - reserved_total reserved_ipv4_ranges
