-- ===== src/Base/Keyed/Laws/Search.antt =====
-- The binary search of a table in the order of a number.
use Prim.Native.Nat.{ℕ, zero, suc, ◌+◌, ◌/◌, ◌<◌, ◌≤◌}
use mathlib.Core.Path.{◌≡◌, refl, sym, ap, subst, ◌∙◌}
use mathlib.Core.List.{List, [], ◌∷◌}
use mathlib.Core.Bool.{true, false}
use mathlib.Core.Option.{none, some}
use mathlib.Core.Logic.{◌≢◌, ◌⊎◌, inl, inr}
use native.Mathlib.Omega.{arith}
use r_dns_crawler.Base.Keyed.{search, find_by}
use r_dns_crawler.Base.Keyed.Laws.{first_of, Ascending}
use r_dns_crawler.Base.Lists.{All, length, get_elem?}
use r_dns_crawler.Base.Tests.{
  ltb, leb, ◌==◌, Bool-cases, Option-cases, some_injective, none_ne_some, ltb→lt, ltb→le, ==→eq,
  ==→ne,
}

module _ {A : Type 0} (key : A → ℕ) where
  get-outside : (es : List A) (i : ℕ) → length es ≤ i → get_elem? es i ≡ none
  get-outside [] i h = refl
  get-outside (x ∷ es) zero h = absurd (omega arith)
  get-outside (x ∷ es) (suc i) h = get-outside es i (omega arith)

  get-below :
      (es : List A) (i k : ℕ) (e : A) → get_elem? es i ≡ none → get_elem? es k ≡ some e → k < i
  get-below [] i k e h g = absurd (cc)
  get-below (x ∷ es) zero k e h g = absurd (cc)
  get-below (x ∷ es) (suc i) zero e h g = omega arith
  get-below (x ∷ es) (suc i) (suc k) e h g = omega (arith, get-below es i k e h g)

  ne_of_lt : (a b : ℕ) → a < b → a ≢ b
  ne_of_lt a b h = λ e. absurd (omega arith)

  pub All-get :
      (k : ℕ) (es : List A) (i : ℕ) (e : A)
      → All (λ d. k < key d) es
      → get_elem? es i ≡ some e
      → k < key e
  All-get k [] i e v h = absurd (cc)
  All-get k (d ∷ es) zero e v h = let same : d ≡ e = cc in subst (λ x. k < key x) same v.0
  All-get k (d ∷ es) (suc i) e v h = All-get k es i e v.1 h

  get-lt :
      (es : List A) (i j : ℕ) (d e : A)
      → Ascending key es
      → i < j
      → get_elem? es i ≡ some d
      → get_elem? es j ≡ some e
      → key d < key e
  get-lt [] i j d e v lt h k = absurd (cc)
  get-lt (x ∷ es) i zero d e v lt h k = absurd (omega arith)
  get-lt (x ∷ es) zero (suc j) d e v lt h k =
      let same : x ≡ d = cc in subst (λ y. key y < key e) same (All-get (key x) es j e v.0 k)
  get-lt (x ∷ es) (suc i) (suc j) d e v lt h k = get-lt es i j d e v.1 (omega arith) h k

  get-inside : (es : List A) (i : ℕ) → i < length es → (e : A) × (get_elem? es i ≡ some e)
  get-inside [] i h = absurd (omega arith)
  get-inside (x ∷ es) zero h = (x, refl)
  get-inside (x ∷ es) (suc i) h = get-inside es i (omega arith)

  -- The entries below `i` lie below the address, and those from `j` on do not.
  abbrev Below : List A → ℕ → ℕ → Type 0
  Below es ip i = (k : ℕ) (e : A) → k < i → get_elem? es k ≡ some e → key e < ip

  abbrev From : List A → ℕ → ℕ → Type 0
  From es ip j = (k : ℕ) (e : A) → j ≤ k → get_elem? es k ≡ some e → ip ≤ key e

  search_lem :
      (fuel : ℕ) (es : List A) (ip i j : ℕ)
      → Ascending key es
      → i ≤ j
      → j ≤ length es
      → j ≤ fuel + i
      → Below es ip i
      → From es ip j
      → let r = search key fuel es ip i j in Below es ip r × From es ip r
  unfolding search
  search_lem zero es ip i j v le fits enough low high =
      let same : j ≡ i = omega arith in (low, subst (From es ip) same high)
  search_lem (suc fuel) es ip i j v le fits enough low high = elim (Bool-cases (ltb i j)) [
    | inr done ↦
        let same : j ≡ i = omega (arith, ltb→le i j done) in
        rw (done, search) (low, subst (From es ip) same high)
    | inl more ↦
        let lt : i < j = ltb→lt i j more in
        let (e, got) = get-inside es ((i + j) / 2) (omega arith) in
        elim (Bool-cases (leb ip (key e))) [
          | inl at_or_above ↦
              rw (more, search, got, at_or_above)
                (search_lem fuel es ip i ((i + j) / 2) v (omega arith) (omega arith) (omega arith)
                  low (λ k d hk gk. behind e got (ground arith) k d hk gk))
          | inr below ↦
              rw (more, search, got, below)
                (search_lem fuel es ip ((i + j) / 2 + 1) j v (omega arith) fits (omega arith)
                  (λ k d hk gk. before e got (ground arith) k d hk gk) high)
        ]
  ]
    where
      behind : (e : A) → get_elem? es ((i + j) / 2) ≡ some e → ip ≤ key e → From es ip ((i + j) / 2)
      behind e got h k d hk gk = elim (Bool-cases (k == (i + j) / 2)) [
        | inl same ↦
            let eq : e ≡ d =
              some_injective
                (sym got ∙ ap (get_elem? es) (sym (==→eq k ((i + j) / 2) same)) ∙ gk) in
            subst (λ x. ip ≤ key x) eq h
        | inr differ ↦ omega (
          arith,
          get-lt es ((i + j) / 2) k e d v (omega (arith, ==→ne k ((i + j) / 2) differ)) got gk,
        )
      ]

      before :
          (e : A) → get_elem? es ((i + j) / 2) ≡ some e → key e < ip → Below es ip ((i + j) / 2 + 1)
      before e got h k d hk gk = elim (Bool-cases (k == (i + j) / 2)) [
        | inl same ↦
            let eq : e ≡ d =
              some_injective
                (sym got ∙ ap (get_elem? es) (sym (==→eq k ((i + j) / 2) same)) ∙ gk) in
            subst (λ x. key x < ip) eq h
        | inr differ ↦ omega (
          arith,
          get-lt es k ((i + j) / 2) d e v (omega (arith, ==→ne k ((i + j) / 2) differ)) gk got,
        )
      ]

  first_of-at :
      (es : List A) (ip i : ℕ) (e : A)
      → Below es ip i
      → get_elem? es i ≡ some e
      → key e ≡ ip
      → first_of key ip es ≡ some e
  first_of-at [] ip i e low h same = absurd (cc)
  first_of-at (x ∷ es) ip zero e low h same =
      let eq : x ≡ e = cc in
      let hit : (key x == ip) ≡ true = subst (λ y. (key y == ip) ≡ true) (sym eq) (ground arith) in
      rw hit (ap some eq)
  first_of-at (x ∷ es) ip (suc i) e low h same =
      let lt : key x < ip = low 0 x (omega arith) refl in
      let miss : (key x == ip) ≡ false = ground arith in
      rw miss (first_of-at es ip i e (λ k d hk gk. low (suc k) d (omega arith) gk) h same)

  first_of-none :
      (es : List A) (ip : ℕ)
      → ((k : ℕ) (e : A) → get_elem? es k ≡ some e → key e ≢ ip)
      → first_of key ip es ≡ none
  first_of-none [] ip differ = refl
  first_of-none (x ∷ es) ip differ =
      let ne = differ 0 x refl in
      let miss : (key x == ip) ≡ false = ground arith in
      rw miss (first_of-none es ip (λ k e h. differ (suc k) e h))

  -- The binary search of an ascending table finds the first entry of the address, if there is one.
  pub find_by_lem :
      (es : List A) (ip : ℕ)
      → Ascending key es
      → ((find_by key es ip ≡ none) × (first_of key ip es ≡ none))
        ⊎ ((i : ℕ) × (e : A) × (find_by key es ip ≡ some (i, e))
            × (get_elem? es i ≡ some e)
            × (first_of key ip es ≡ some e))
  unfolding find_by
  find_by_lem es ip v = elim (Option-cases (get_elem? es r)) [
    | inl past ↦ inl (
      rw (past, find_by) refl,
      first_of-none es ip
          (λ k e h. ne_of_lt (key e) ip (ordered.0 k e (get-below es r k e past h) h)),
    )
    | inr (e, got) ↦ elim (Bool-cases (key e == ip)) [
      | inl same ↦ inr (
        r,
        e,
        rw (got, find_by, same) refl,
        got,
        first_of-at es ip r e ordered.0 got (==→eq (key e) ip same),
      )
      | inr differ ↦ inl (
        rw (got, find_by, differ) refl,
        first_of-none es ip (λ k d h. beside e got (==→ne (key e) ip differ) k d h),
      )
    ]
  ]
    where
      r : ℕ
      r = search key (length es) es ip 0 (length es)

      ordered : Below es ip r × From es ip r
      ordered =
          search_lem (length es) es ip 0 (length es) v (omega arith) (omega arith) (omega arith)
            (λ k e h g. absurd (omega arith))
            (λ k e h g. absurd (none_ne_some (sym (get-outside es k h) ∙ g)))

      beside :
          (e : A)
          → get_elem? es r ≡ some e
          → key e ≢ ip
          → (k : ℕ) (d : A) → get_elem? es k ≡ some d
          → key d ≢ ip
      beside e got ne k d h = elim (Bool-cases (ltb k r)) [
        | inl lt ↦ ne_of_lt (key d) ip (ordered.0 k d (ltb→lt k r lt) h)
        | inr ge ↦ elim (Bool-cases (k == r)) [
          | inl same ↦
              let eq : e ≡ d =
                some_injective (sym got ∙ ap (get_elem? es) (sym (==→eq k r same)) ∙ h) in
              subst (λ x. key x ≢ ip) eq ne
          | inr differ ↦
              let lt = get-lt es r k e d v (omega (arith, ltb→le k r ge, ==→ne k r differ)) got h in
              let le = ordered.1 r e (omega arith) got in
              λ same. absurd (omega (arith, lt, le, same))
        ]
      ]
