-- ===== src/Ipgen/Random/Laws.antt =====
-- internal/ipgen/ipgen.go, `GenerateRandom`: what it emits.
use r_dns_crawler.Base.{
  ℕ, zero, suc, ◌+◌, ◌-◌, ◌≤◌, ◌<◌, ◌≡◌, refl, ap, subst, ◌∙◌, true, false, List, [], ◌∷◌, some,
  length, take, ltb, ◌==◌, arith, All, All-take, length-take, Bool-cases, ltb→lt, ltb→le, inl, inr,
}
use r_dns_crawler.Ipgen.Reserved.{is_reserved}
use r_dns_crawler.Ipgen.Walk.Sharded.{emits, min}
use r_dns_crawler.Ipgen.Random.{member, random, generate_random}

-- The draws that are not reserved and not drawn before.
abbrev pub fresh : (seen draws : List ℕ) → List ℕ
fresh seen [] = []
fresh seen (v ∷ draws) = elim (is_reserved v) [
  | true ↦ fresh seen draws
  | false ↦ elim (member v seen) [ true ↦ fresh seen draws | false ↦ v ∷ fresh (v ∷ seen) draws ]
]

abbrev pub Distinct : List ℕ → Type 0
Distinct [] = Unit
Distinct (v ∷ vs) = All (λ w. (w == v) ≡ false) vs × Distinct vs

take_full : (room n k : ℕ) (vs : List ℕ) → n ≤ k → take (min room (n - k)) vs ≡ []
take_full room n k vs h =
    let none_left : min room (n - k) ≡ 0 = ground arith in ap (λ m. take m vs) none_left

take_next :
    (room n k v : ℕ) (vs : List ℕ)
    → k < n
    → take (min (suc room) (n - k)) (v ∷ vs) ≡ v ∷ take (min room (n - suc k)) vs
take_next room n k v vs h =
    let one_more : min (suc room) (n - k) ≡ suc (min room (n - suc k)) = ground arith in
    ap (λ m. take m (v ∷ vs)) one_more

random_lem :
    (room n : ℕ) (seen draws : List ℕ)
    → n ≤ length seen + length (fresh seen draws)
    → emits (random room n seen draws) ≡ some (take (min room (n - length seen)) (fresh seen draws))
unfolding random
random_lem room n seen [] h =
    let full : ltb (length seen) n ≡ false = ground arith in
    rw (full, random, take_full room n (length seen) [] (omega arith)) refl
random_lem room n seen (v ∷ draws) h = elim (Bool-cases (ltb (length seen) n)) [
  | inr full ↦
      rw (full, random, take_full room n (length seen) (fresh seen (v ∷ draws)) (ltb→le _ _ full))
        refl
  | inl more ↦ elim (Bool-cases (is_reserved v)) [
    | inl reserved ↦
        rw (more, random, reserved, fresh)
          (random_lem room n seen draws (rw (reserved, fresh) at h))
    | inr routable ↦ elim (Bool-cases (member v seen)) [
      | inl dup ↦
          rw (more, random, routable, dup, fresh)
            (random_lem room n seen draws (rw (routable, fresh, dup) at h))
      | inr new ↦
          drawn room more routable new
            (random_lem (room - 1) n (v ∷ seen) draws (enough (rw (routable, fresh, new) at h)))
    ]
  ]
]
  where
    enough :
        n ≤ length seen + suc (length (fresh (v ∷ seen) draws))
        → n ≤ suc (length seen) + length (fresh (v ∷ seen) draws)
    enough h = omega arith

    drawn :
        (room : ℕ)
        → ltb (length seen) n ≡ true
        → is_reserved v ≡ false
        → member v seen ≡ false
        → emits (random (room - 1) n (v ∷ seen) draws)
          ≡ some (take (min (room - 1) (n - suc (length seen))) (fresh (v ∷ seen) draws))
        → emits (random room n seen (v ∷ draws))
          ≡ some (take (min room (n - length seen)) (fresh seen (v ∷ draws)))
    drawn zero more routable new rest =
        let nothing : min 0 (n - length seen) ≡ 0 = ground arith in
        rw (more, random, routable, new, nothing, fresh) refl
    drawn (suc room) more routable new rest =
        let pred : suc room - 1 ≡ room = omega arith in
        let rest' =
          subst
            (λ m.
              emits (random m n (v ∷ seen) draws)
              ≡ some (take (min m (n - suc (length seen))) (fresh (v ∷ seen) draws)))
            pred rest in
        rw
          (
            more,
            random,
            routable,
            new,
            fresh,
            rest',
            take_next room n (length seen) v (fresh (v ∷ seen) draws) (ltb→lt _ _ more),
          )
          refl

fresh-Distinct :
    (seen draws : List ℕ)
    → All (λ w. member w seen ≡ false) (fresh seen draws)
      × Distinct (fresh seen draws)
      × All (λ w. is_reserved w ≡ false) (fresh seen draws)
fresh-Distinct seen [] = (tt, tt, tt)
fresh-Distinct seen (v ∷ draws) = elim (Bool-cases (is_reserved v)) [
  | inl reserved ↦ rw (reserved, fresh) (fresh-Distinct seen draws)
  | inr routable ↦ elim (Bool-cases (member v seen)) [
    | inl dup ↦ rw (routable, fresh, dup) (fresh-Distinct seen draws)
    | inr new ↦
        let (unseen, distinct, routables) = fresh-Distinct (v ∷ seen) draws in
        let (others, old) = split_member v seen _ unseen in
        rw (routable, fresh, new) ((new, old), (others, distinct), (routable, routables))
  ]
]
  where
    split_member :
        (v : ℕ) (seen vs : List ℕ)
        → All (λ w. member w (v ∷ seen) ≡ false) vs
        → All (λ w. (w == v) ≡ false) vs × All (λ w. member w seen ≡ false) vs
    split_member v seen [] h = (tt, tt)
    split_member v seen (w ∷ vs) h =
        let (others, old) = split_member v seen vs h.1 in
        ((ground (arith, h.0), others), (ground (arith, h.0), old))

Distinct-take : (n : ℕ) (vs : List ℕ) → Distinct vs → Distinct (take n vs)
Distinct-take zero vs h = tt
Distinct-take (suc n) [] h = tt
Distinct-take (suc n) (v ∷ vs) h = (All-take _ n vs h.0, Distinct-take n vs h.1)

-- With enough draws, n of them not reserved and different from each other: `GenerateRandom` ends,
-- and it has emitted n addresses, or as many as sends went through before the context was
-- cancelled if these are fewer; no two are the same and none is reserved.
pub generate_random_lem :
    (room n : ℕ) (draws : List ℕ)
    → n ≤ length (fresh [] draws)
    → (vs : List ℕ) × (emits (generate_random room n draws) ≡ some vs)
      × (length vs ≡ min room n)
      × Distinct vs
      × All (λ v. is_reserved v ≡ false) vs
unfolding generate_random
generate_random_lem room n draws h =
    let (unseen, distinct, routables) = fresh-Distinct [] draws in
    let whole : min room (n - 0) ≡ min room n = ap (min room) (omega arith) in
    let short : min room n ≤ length (fresh [] draws) = ground arith in
    (
      take (min room n) (fresh [] draws),
      random_lem room n [] draws (omega arith) ∙ ap (λ m. some (take m (fresh [] draws))) whole,
      length-take (min room n) _ short,
      Distinct-take (min room n) _ distinct,
      All-take _ (min room n) _ routables,
    )
