-- ===== src/Compare/Targets.antt =====
-- internal/compare/compare.go: from the records of an old shard to the targets of the join.
use mathlib.Core.List.{Permᴰ}
use r_dns_crawler.Base.{
  ℕ, ◌+◌, ◌≡◌, refl, sym, ap, ◌∙◌, Bool, true, false, ◌&&◌, ◌||◌, List, [], ◌∷◌, Option, some, none,
  length, ltb, ◌==◌, arith, All, Bool-cases, ltb→lt, lt→ltb, inl, inr,
}
use r_dns_crawler.Base.Perms.{All-perm, length-perm}
use r_dns_crawler.Base.Keyed.Laws.{
  first_of, Sorted, first_of-dedup_by, dedup_by-Ascending, All-dedup_by, length-dedup_by,
}
use r_dns_crawler.Model.Mask.{has}
use r_dns_crawler.Store.Block.{Rec}
use r_dns_crawler.Compare.Load.{OldEnt, old_flags, old_ent, old_targets, dedup_sorted}
use r_dns_crawler.Compare.Join.Counted.{IsTarget, AreTargets}
use r_dns_crawler.Compare.Final.Sums.{Unmarked}

-- An address is among the entries, and the baseline has a record of it that the mask selects.
abbrev pub listed : ℕ → List OldEnt → Bool
listed ip [] = false
listed ip (e ∷ es) = e.ip == ip || listed ip es

abbrev pub targeted : ℕ → ℕ → List Rec → Bool
targeted mask ip [] = false
targeted mask ip (r ∷ rs) = (has mask r.status && r.ip == ip) || targeted mask ip rs

abbrev is_some {ℓ} : {A : Type ℓ} → Option A → Bool
is_some none = false
is_some (some x) = true

-- What the loop over a slice relies on of `slices.SortFunc` by address: the same entries, in order.
pub record Sorts (sort_ents : List OldEnt → List OldEnt) : Type 0 where
  pub sorted : (es : List OldEnt) → Sorted (λ e. e.ip) (sort_ents es)
  pub same : (es : List OldEnt) → Permᴰ es (sort_ents es)

or_swap : (a b c : Bool) → (a || (b || c)) ≡ (b || (a || c))
or_swap true true c = refl
or_swap true false c = refl
or_swap false b c = refl

listed-perm : (ip : ℕ) {es ds : List OldEnt} → Permᴰ es ds → listed ip es ≡ listed ip ds
listed-perm ip Permᴰ.nil = refl
listed-perm ip (Permᴰ.cons e p) = λ i. (e i).ip == ip || listed-perm ip p i
listed-perm ip (Permᴰ.swap {a} {b} {a'} {b'} {l} e f) =
    or_swap (a.ip == ip) (b.ip == ip) (listed ip l)
    ∙ (λ i. (f i).ip == ip || ((e i).ip == ip || listed ip l))
listed-perm ip (Permᴰ.trans p q) = listed-perm ip p ∙ listed-perm ip q

listed-first_of : (ip : ℕ) (es : List OldEnt) → listed ip es ≡ is_some (first_of (λ e. e.ip) ip es)
listed-first_of ip [] = refl
listed-first_of ip (e ∷ es) = elim (Bool-cases (e.ip == ip)) [
  | inl same ↦ rw same refl
  | inr differ ↦ rw differ (listed-first_of ip es)
]

listed-old_targets :
    (mask ip : ℕ) (rs : List Rec) → listed ip (old_targets mask rs) ≡ targeted mask ip rs
unfolding old_targets old_ent
listed-old_targets mask ip [] = refl
listed-old_targets mask ip (r ∷ rs) = elim (Bool-cases (has mask r.status)) [
  | inl target ↦ rw target (ap (λ b. r.ip == ip || b) (listed-old_targets mask ip rs))
  | inr other ↦ rw other (listed-old_targets mask ip rs)
]

-- An entry as `loadOldTargets` makes it.
abbrev IsFresh : OldEnt → Type 0
IsFresh e = (ltb e.flags 4 ≡ true) × (ltb e.status 8 ≡ true)

old_flags-lt : (r : Rec) → ltb (old_flags r) 4 ≡ true
unfolding old_flags
old_flags-lt r = elim (Bool-cases r.fc_checked) [
  | inl checked ↦ elim (Bool-cases r.fc_match) [
    | inl matched ↦ rw (checked, matched) refl
    | inr failed ↦ rw (checked, failed) refl
  ]
  | inr unchecked ↦ rw unchecked refl
]

All-old_targets :
    (mask : ℕ) (rs : List Rec)
    → All (λ r. ltb r.status 8 ≡ true) rs
    → All IsFresh (old_targets mask rs)
unfolding old_targets old_ent
All-old_targets mask [] h = tt
All-old_targets mask (r ∷ rs) h = elim (Bool-cases (has mask r.status)) [
  | inl target ↦ rw target ((old_flags-lt r, h.0), All-old_targets mask rs h.1)
  | inr other ↦ rw other (All-old_targets mask rs h.1)
]

fresh-IsTarget : (es : List OldEnt) → All IsFresh es → All IsTarget es × Unmarked es
fresh-IsTarget [] h = (tt, tt)
fresh-IsTarget (e ∷ es) h =
    let (targets, unmarked) = fresh-IsTarget es h.1 in
    let small = ltb→lt e.flags 4 h.0.0 in
    (((lt→ltb e.flags 8 (omega arith), h.0.1), targets), (small, unmarked))

-- For a sort that keeps the entries and puts them in order, and old records with one of the eight
-- codes: the table of `Run` is in the strict order of the addresses, with no target marked yet; it
-- has an entry for exactly the addresses with an old record that the mask selects; and its length
-- and the duplicates counted make up the number of the selected records.
pub dedup_sorted-targets :
    (sort_ents : List OldEnt → List OldEnt) (mask : ℕ) (rs : List Rec)
    → Sorts sort_ents
    → All (λ r. ltb r.status 8 ≡ true) rs
    → let t = dedup_sorted (sort_ents (old_targets mask rs)) in
      AreTargets t.0
      × Unmarked t.0
      × ((ip : ℕ) → listed ip t.0 ≡ targeted mask ip rs)
      × (length t.0 + t.1 ≡ length (old_targets mask rs))
unfolding dedup_sorted
dedup_sorted-targets sort_ents mask rs sorts h =
    let es = old_targets mask rs in
    let fresh = All-perm IsFresh (sorts.same es) (All-old_targets mask rs h) in
    let (targets, unmarked) =
      fresh-IsTarget _ (All-dedup_by (λ e. e.ip) IsFresh (sort_ents es) fresh) in
    (
      (dedup_by-Ascending (λ e. e.ip) (sort_ents es) (sorts.sorted es), targets),
      unmarked,
      λ ip.
          listed-first_of ip _
          ∙ ap is_some (first_of-dedup_by (λ e. e.ip) ip (sort_ents es))
          ∙ sym (listed-first_of ip (sort_ents es))
          ∙ sym (listed-perm ip (sorts.same es))
          ∙ listed-old_targets mask ip rs,
      length-dedup_by (λ e. e.ip) (sort_ents es) ∙ sym (length-perm (sorts.same es)),
    )
