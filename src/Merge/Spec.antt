-- ===== src/Merge/Spec.antt =====
-- internal/merge/merge.go, the comment above the package: which record an address gets.
use r_dns_crawler.Base.{
  ℕ, Bool, true, false, List, [], ◌∷◌, Option, some, none, ◌==◌, ◌||◌, if◌then◌else◌, map,
}
use r_dns_crawler.Model.Mask.{has}
use r_dns_crawler.Model.Status.{code_has_ptr, code_no_error_empty, code_nx_domain}
use r_dns_crawler.Store.Block.{Rec}
use r_dns_crawler.Model.Record.{Record}
use r_dns_crawler.Merge.Shard.{mark, to_record}

-- What a pass says of an address: its first record of it.
abbrev pub observation : ℕ → List Rec → Option Rec
observation ip [] = none
observation ip (r ∷ rs) = if r.ip == ip then some r else observation ip rs

-- The old record of a target or the new one: a transient failure does not erase a name.
abbrev pub settle : Rec → Rec → Rec
settle old new =
    if new.status == code_has_ptr
    then new
    else if new.status == code_nx_domain || new.status == code_no_error_empty
    then new
    else if old.status == code_has_ptr
    then old
    else new

-- Only targets change, and only by an observation.
abbrev pub choose : ℕ → Option Rec → Rec → Rec
choose mask none old = old
choose mask (some new) old = if has mask old.status then settle old new else old

-- The first record of each address that was not seen before.
abbrev pub firsts : (ℕ → Bool) → List Rec → List Rec
firsts seen [] = []
firsts seen (r ∷ rs) = elim (seen r.ip) [
  | true ↦ firsts seen rs
  | false ↦ r ∷ firsts (mark r.ip seen) rs
]

abbrev pub merged : ℕ → List Rec → (ℕ → Bool) → List Rec → List Record
merged mask news seen olds =
    map (λ r. to_record (choose mask (observation r.ip news) r)) (firsts seen olds)
