-- ===== src/Base/Keyed/Laws/Sort.antt =====
-- Sorting a table by a number.
use mathlib.Core.List.{Permᴰ}
use mathlib.Core.List.Permᴰ
use r_dns_crawler.Base.Keyed.{insert_by, sort_by}
use r_dns_crawler.Base.Keyed.Laws.{first_of, Sorted, All-le}
use r_dns_crawler.Base.Lists.{All}
use r_dns_crawler.Base.Tests.{leb, ◌==◌, if◌then◌else◌, Bool-cases}
use Prim.Native.Nat.{ℕ, ◌≤◌}
use mathlib.Core.Path.{◌≡◌, refl, ap, ◌∙◌}
use mathlib.Core.List.{List, [], ◌∷◌}
use mathlib.Core.Logic.{inl, inr}
use mathlib.Core.Option.{some}
use native.Mathlib.Omega.{arith}

module _ {A : Type 0} (key : A → ℕ) where
  first_of-insert_by :
      (ip : ℕ) (e : A) (es : List A)
      → first_of key ip (insert_by key e es) ≡ first_of key ip (e ∷ es)
  unfolding insert_by
  first_of-insert_by ip e [] = refl
  first_of-insert_by ip e (d ∷ es) = ground (arith, first_of-insert_by ip e es)

  pub first_of-sort_by :
      (ip : ℕ) (es : List A) → first_of key ip (sort_by key es) ≡ first_of key ip es
  unfolding sort_by
  first_of-sort_by ip [] = refl
  first_of-sort_by ip (e ∷ es) =
      first_of-insert_by ip e (sort_by key es)
      ∙ ap (λ o. if key e == ip then some e else o) (first_of-sort_by ip es)

  All-insert_by :
      (k : ℕ) (e : A) (es : List A)
      → k ≤ key e
      → All (λ d. k ≤ key d) es
      → All (λ d. k ≤ key d) (insert_by key e es)
  unfolding insert_by
  All-insert_by k e [] h v = (h, tt)
  All-insert_by k e (d ∷ es) h v = elim (Bool-cases (leb (key e) (key d))) [
    | inl le ↦ rw (le, insert_by) (h, v)
    | inr gt ↦ rw (gt, insert_by) (v.0, All-insert_by k e es h v.1)
  ]

  insert_by-Sorted : (e : A) (es : List A) → Sorted key es → Sorted key (insert_by key e es)
  unfolding insert_by
  insert_by-Sorted e [] v = (tt, tt)
  insert_by-Sorted e (d ∷ es) v = elim (Bool-cases (leb (key e) (key d))) [
    | inl le ↦
        let h : key e ≤ key d = ground arith in
        rw (le, insert_by) ((h, All-le key (key e) (key d) es h v.0), v)
    | inr gt ↦
        rw (gt, insert_by)
          (All-insert_by (key d) e es (ground arith) v.0, insert_by-Sorted e es v.1)
  ]

  pub sort_by-Sorted : (es : List A) → Sorted key (sort_by key es)
  unfolding sort_by
  sort_by-Sorted [] = tt
  sort_by-Sorted (e ∷ es) = insert_by-Sorted e (sort_by key es) (sort_by-Sorted es)

  insert_by-perm : (e : A) (es : List A) → Permᴰ (e ∷ es) (insert_by key e es)
  unfolding insert_by
  insert_by-perm e [] = Permᴰ.refl (e ∷ [])
  insert_by-perm e (d ∷ es) = elim (Bool-cases (leb (key e) (key d))) [
    | inl le ↦ rw (le, insert_by) (Permᴰ.refl (e ∷ d ∷ es))
    | inr gt ↦
        rw (gt, insert_by)
          (Permᴰ.trans (Permᴰ.swap refl refl) (Permᴰ.cons refl (insert_by-perm e es)))
  ]

  pub sort_by-perm : (es : List A) → Permᴰ es (sort_by key es)
  unfolding sort_by
  sort_by-perm [] = Permᴰ.nil
  sort_by-perm (e ∷ es) =
      Permᴰ.trans (Permᴰ.cons refl (sort_by-perm es)) (insert_by-perm e (sort_by key es))
