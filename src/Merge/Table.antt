-- ===== src/Merge/Table.antt =====
-- internal/merge/merge.go, `loadNewShard`: the sorted and deduplicated table under a lookup by address.
pub mod Described
pub mod Loaded
use r_dns_crawler.Base.{
  ℕ, zero, suc, ◌+◌, ◌≤◌, ◌<◌, ◌≡◌, refl, sym, ap, ◌∙◌, Bool, true, false, List, [], ◌∷◌, Option,
  some, none, leb, ◌==◌, if◌then◌else◌, arith, Bool-cases, inl, inr, All,
}
use r_dns_crawler.Base.Keyed.Laws.{
  first_of, first_of-dedup_by, Ascending as Rising, Sorted, All-le, dedup_by-Ascending,
}
use r_dns_crawler.Base.Keyed.Laws.Sort.{first_of-sort_by, sort_by-Sorted}
use r_dns_crawler.Merge.Load.{Ent, sort_stable, dedup}

-- The first entry of an address.
abbrev pub first_ent : ℕ → List Ent → Option Ent
first_ent = first_of (λ e. e.ip)

abbrev pub Ascending : List Ent → Type 0
Ascending = Rising (λ e. e.ip)

pub first_ent-table :
    (ip : ℕ) (es : List Ent) → first_ent ip (dedup (sort_stable es)).0 ≡ first_ent ip es
unfolding dedup sort_stable
first_ent-table ip es =
    first_of-dedup_by (λ e. e.ip) ip (sort_stable es) ∙ first_of-sort_by (λ e. e.ip) ip es

pub table-Ascending : (es : List Ent) → Ascending (dedup (sort_stable es)).0
unfolding dedup sort_stable
table-Ascending es = dedup_by-Ascending (λ e. e.ip) (sort_stable es) (sort_by-Sorted (λ e. e.ip) es)
