-- ===== src/Output/Samples.antt =====
-- internal/output/output.go: the first records that have names, as samples.
use r_dns_crawler.Base.{
  ℕ, zero, suc, ◌<◌, ◌≤◌, ◌≡◌, refl, ap, Bool, List, [], ◌∷◌, ◌++◌, length, take_nil, take, select,
  arith, Bool-cases, inl, inr,
}
use r_dns_crawler.Model.Record.{Record}
use r_dns_crawler.Model.Status.{has_ptr}

-- The records that have names.
abbrev pub named : List Record → List Record
named = select (λ r. has_ptr r.status)

pub take_cons : (n : ℕ) (xs ys : List Record) → n ≤ length xs → take n (xs ++ ys) ≡ take n xs
take_cons zero xs ys h = refl
take_cons (suc n) [] ys h = absurd (omega arith)
take_cons (suc n) (x ∷ xs) ys h = ap (λ l. x ∷ l) (take_cons n xs ys (omega arith))

pub take_below :
    (n : ℕ) (xs : List Record) (x : Record)
    → length xs < n
    → take n (xs ++ (x ∷ [])) ≡ xs ++ (x ∷ [])
take_below zero xs x h = absurd (omega arith)
take_below (suc n) [] x h = ap (λ l. x ∷ l) (take_nil n)
take_below (suc n) (y ∷ xs) x h = ap (λ l. y ∷ l) (take_below n xs x (omega arith))

pub select-append :
    (p : Record → Bool) (xs ys : List Record) → select p (xs ++ ys) ≡ select p xs ++ select p ys
select-append p [] ys = refl
select-append p (x ∷ xs) ys = elim (Bool-cases (p x)) [
  | inl yes_p ↦ rw yes_p (ap (λ l. x ∷ l) (select-append p xs ys))
  | inr no_p ↦ rw no_p (select-append p xs ys)
]

pub take_sampled :
    (n : ℕ) (xs ys zs : List Record) → take n (take n (xs ++ ys) ++ zs) ≡ take n (xs ++ (ys ++ zs))
take_sampled zero xs ys zs = refl
take_sampled (suc n) [] [] zs = refl
take_sampled (suc n) [] (y ∷ ys) zs = ap (λ l. y ∷ l) (take_sampled n [] ys zs)
take_sampled (suc n) (x ∷ xs) ys zs = ap (λ l. x ∷ l) (take_sampled n xs ys zs)

pub length-take_le : (n : ℕ) (xs : List Record) → length (take n xs) ≤ n
length-take_le zero xs = omega arith
length-take_le (suc n) [] = omega arith
length-take_le (suc n) (x ∷ xs) = let rest = length-take_le n xs in omega arith
