-- ===== src/Base/Keyed.antt =====
-- Tables in the order of a number, as merge and compare keep theirs: the loop that drops equal
-- neighbours and the binary search.
pub mod Laws
use r_dns_crawler.Base.Lists.{length, get_elem?}
use r_dns_crawler.Base.Tests.{ltb, leb, ◌==◌, if◌then◌else◌}
use Prim.Native.Nat.{ℕ, zero, suc, ◌+◌, ◌/◌}
use mathlib.Core.List.{List, [], ◌∷◌}
use mathlib.Core.Bool.{Bool, true, false}
use mathlib.Core.Option.{Option, none, some}

module _ {A : Type 0} (key : A → ℕ) where
  -- The loop that keeps the first of equal neighbours: `kept` is `ents[out-1]`.
  unfoldable pub dedup_from : A → List A → List A × ℕ
  dedup_from kept [] = ([], 0)
  dedup_from kept (e ∷ es) = elim (key kept == key e) [
    | true ↦ let (rest, dups) = dedup_from kept es in (rest, dups + 1)
    | false ↦ let (rest, dups) = dedup_from e es in (e ∷ rest, dups)
  ]

  unfoldable pub dedup_by : List A → List A × ℕ
  unfolding dedup_from
  dedup_by [] = ([], 0)
  dedup_by (e ∷ es) = let (kept, dups) = dedup_from e es in (e ∷ kept, dups)

  -- The binary search of `sort.Search` for the first entry at or above `ip`.
  unfoldable pub search : (fuel : ℕ) → List A → (ip i j : ℕ) → ℕ
  search zero ents ip i j = i
  search (suc fuel) ents ip i j =
      let h = (i + j) / 2 in
      elim (ltb i j) [
        | false ↦ i
        | true ↦ elim (get_elem? ents h) [
          | none ↦ i
          | some e ↦ elim (leb ip (key e)) [
            | true ↦ search fuel ents ip i h
            | false ↦ search fuel ents ip (h + 1) j
          ]
        ]
      ]

  -- The entry of an address and its index.
  unfoldable pub find_by : List A → ℕ → Option (ℕ × A)
  find_by ents ip =
      let i = search (length ents) ents ip 0 (length ents) in
      elim (get_elem? ents i) [ none ↦ none | some e ↦ if key e == ip then some (i, e) else none ]

  -- `slices.SortStableFunc` by the number.
  unfoldable pub insert_by : A → List A → List A
  insert_by e [] = e ∷ []
  insert_by e (d ∷ ds) = if leb (key e) (key d) then e ∷ d ∷ ds else d ∷ insert_by e ds

  unfoldable pub sort_by : List A → List A
  unfolding insert_by
  sort_by [] = []
  sort_by (e ∷ es) = insert_by e (sort_by es)
