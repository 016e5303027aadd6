-- ===== src/Base/Keyed/Laws.antt =====
-- Tables in the order of a number: what dropping equal neighbours keeps, and what the search finds.
pub mod Search
pub mod Sort
use r_dns_crawler.Base.Keyed.{dedup_from, dedup_by}
use r_dns_crawler.Base.Lists.{All, length}
use r_dns_crawler.Base.Tests.{◌==◌, if◌then◌else◌, Bool-cases, some_injective, ==→eq}
use Prim.Native.Nat.{ℕ, zero, suc, ◌+◌, ◌<◌, ◌≤◌}
use mathlib.Core.Path.{◌≡◌, refl, sym, ap, ◌∙◌}
use mathlib.Core.List.{List, [], ◌∷◌}
use mathlib.Core.Bool.{Bool, true, false}
use mathlib.Core.Option.{Option, none, some}
use mathlib.Core.Logic.{inl, inr}
use native.Mathlib.Omega.{arith}

module _ {A : Type 0} (key : A → ℕ) where
  -- The first element of a key.
  abbrev pub first_of : ℕ → List A → Option A
  first_of ip [] = none
  first_of ip (e ∷ es) = if key e == ip then some e else first_of ip es

  pub first_of-key : (ip : ℕ) (es : List A) (e : A) → first_of ip es ≡ some e → key e ≡ ip
  first_of-key ip [] e h = absurd (cc)
  first_of-key ip (d ∷ es) e h = elim (Bool-cases (key d == ip)) [
    | inl same ↦ sym (ap key (some_injective (rw same at h))) ∙ ==→eq (key d) ip same
    | inr differ ↦ first_of-key ip es e (rw differ at h)
  ]

  first_of-dedup_from :
      (ip : ℕ) (kept : A) (es : List A)
      → first_of ip (kept ∷ (dedup_from key kept es).0) ≡ first_of ip (kept ∷ es)
  unfolding dedup_from
  first_of-dedup_from ip kept [] = refl
  first_of-dedup_from ip kept (e ∷ es) = elim (Bool-cases (key kept == key e)) [
    | inl same ↦ rw (same, dedup_from) (ground (arith, first_of-dedup_from ip kept es))
    | inr differ ↦
        rw (differ, dedup_from)
          (ap (λ o. if key kept == ip then some kept else o) (first_of-dedup_from ip e es))
  ]

  -- Keys never descend, and ascend strictly.
  abbrev pub Sorted : List A → Type 0
  Sorted [] = Unit
  Sorted (e ∷ es) = All (λ d. key e ≤ key d) es × Sorted es

  abbrev pub Ascending : List A → Type 0
  Ascending [] = Unit
  Ascending (e ∷ es) = All (λ d. key e < key d) es × Ascending es

  pub All-le : (k l : ℕ) (es : List A) → k ≤ l → All (λ d. l ≤ key d) es → All (λ d. k ≤ key d) es
  All-le k l [] h v = tt
  All-le k l (e ∷ es) h v = (omega (arith, v.0), All-le k l es h v.1)

  dedup_from-Ascending :
      (k : ℕ) (kept : A) (es : List A)
      → k ≤ key kept
      → All (λ d. key kept ≤ key d) es
      → Sorted es
      → All (λ d. key kept < key d) (dedup_from key kept es).0
        × Ascending (dedup_from key kept es).0
  unfolding dedup_from
  dedup_from-Ascending k kept [] h v s = (tt, tt)
  dedup_from-Ascending k kept (e ∷ es) h v s = elim (Bool-cases (key kept == key e)) [
    | inl same ↦ rw (same, dedup_from) (dedup_from-Ascending k kept es h v.1 s.1)
    | inr differ ↦
        let (above, up) = dedup_from-Ascending k e es (omega (arith, v.0)) s.0 s.1 in
        let lt : key kept < key e = ground (arith, v.0) in
        rw (differ, dedup_from) ((lt, All-lt (key kept) (key e) _ lt above), (above, up))
  ]
    where
      All-lt : (k l : ℕ) (es : List A) → k < l → All (λ d. l < key d) es → All (λ d. k < key d) es
      All-lt k l [] h v = tt
      All-lt k l (e ∷ es) h v = (omega (arith, v.0), All-lt k l es h v.1)

  pub first_of-dedup_by : (ip : ℕ) (es : List A) → first_of ip (dedup_by key es).0 ≡ first_of ip es
  unfolding dedup_by
  first_of-dedup_by ip [] = refl
  first_of-dedup_by ip (e ∷ es) = first_of-dedup_from ip e es

  pub dedup_by-Ascending : (es : List A) → Sorted es → Ascending (dedup_by key es).0
  unfolding dedup_by
  dedup_by-Ascending [] s = tt
  dedup_by-Ascending (e ∷ es) s =
      let (above, up) = dedup_from-Ascending (key e) e es (omega arith) s.0 s.1 in (above, up)

  All-dedup_from :
      (P : A → Type 0) (kept : A) (es : List A) → All P es → All P (dedup_from key kept es).0
  unfolding dedup_from
  All-dedup_from P kept [] h = tt
  All-dedup_from P kept (e ∷ es) h = elim (Bool-cases (key kept == key e)) [
    | inl same ↦ rw (same, dedup_from) (All-dedup_from P kept es h.1)
    | inr differ ↦ rw (differ, dedup_from) (h.0, All-dedup_from P e es h.1)
  ]

  pub All-dedup_by : (P : A → Type 0) (es : List A) → All P es → All P (dedup_by key es).0
  unfolding dedup_by
  All-dedup_by P [] h = tt
  All-dedup_by P (e ∷ es) h = (h.0, All-dedup_from P e es h.1)

  length-dedup_from :
      (kept : A) (es : List A)
      → length (dedup_from key kept es).0 + (dedup_from key kept es).1 ≡ length es
  unfolding dedup_from
  length-dedup_from kept [] = omega arith
  length-dedup_from kept (e ∷ es) = elim (Bool-cases (key kept == key e)) [
    | inl same ↦ rw (same, dedup_from) (omega (arith, length-dedup_from kept es))
    | inr differ ↦ rw (differ, dedup_from) (omega (arith, length-dedup_from e es))
  ]

  pub length-dedup_by : (es : List A) → length (dedup_by key es).0 + (dedup_by key es).1 ≡ length es
  unfolding dedup_by
  length-dedup_by [] = omega arith
  length-dedup_by (e ∷ es) = omega (arith, length-dedup_from e es)
