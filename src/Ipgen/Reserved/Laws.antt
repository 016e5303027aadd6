-- ===== src/Ipgen/Reserved/Laws.antt =====
-- internal/ipgen/ipgen.go: the jump to the end of a reserved block.
use r_dns_crawler.Base.{
  ℕ, zero, suc, ◌+◌, ◌-◌, ◌≤◌, ◌<◌, ◌≡◌, refl, Bool, true, false, List, [], ◌∷◌, some, length,
  arith, if◌then◌else◌, Bool-cases, inl, inr, ◌∙◌, ap,
}
use r_dns_crawler.Ipgen.Reserved.{ReservedRange, inside, in_any, block_end}

pub block_end-some :
    (rs : List ReservedRange) (v e : ℕ)
    → block_end rs v ≡ some e
    → (v ≤ e) × ((i : ℕ) → v ≤ i → i ≤ e → in_any rs i ≡ true)
unfolding block_end in_any
block_end-some [] v e h = absurd (ground arith)
block_end-some (r ∷ rs) v e h = elim (Bool-cases (inside r v)) [
  | inl here ↦ (ground arith, λ i lo hi. ground arith)
  | inr there ↦
      let (le, all) = block_end-some rs v e (rw there at h) in
      (le, λ i lo hi. ground (arith, all i lo hi))
]

pub block_end_reserved :
    (rs : List ReservedRange) (v : ℕ) → in_any rs v ≡ true → (e : ℕ) × (block_end rs v ≡ some e)
unfolding block_end in_any
block_end_reserved [] v h = cc
block_end_reserved (r ∷ rs) v h = elim (Bool-cases (inside r v)) [
  | inl here ↦ (r.end, rw here)
  | inr there ↦ let (e, found) = block_end_reserved rs v (rw there at h) in (e, rw (there, found))
]

-- The numbers from `v` on, `n` of them, that pass a test.
unfoldable pub picks : (ℕ → Bool) → ℕ → ℕ → List ℕ
picks p v zero = []
picks p v (suc n) = let rest = picks p (v + 1) n in if p v then v ∷ rest else rest

pub picks-eq : (p : ℕ → Bool) {v w n m : ℕ} → v ≡ w → n ≡ m → picks p v n ≡ picks p w m
picks-eq p e d = λ i. picks p (e i) (d i)

-- A stretch where the test fails may be left out.
pub picks_skip :
    (p : ℕ → Bool) (v n k : ℕ)
    → k ≤ n
    → ((i : ℕ) → v ≤ i → i < v + k → p i ≡ false)
    → picks p v n ≡ picks p (v + k) (n - k)
unfolding picks
picks_skip p v n zero h fails = picks-eq p (omega arith) (omega arith)
picks_skip p v zero (suc k) h fails = absurd (omega arith)
picks_skip p v (suc n) (suc k) h fails =
    let first : p v ≡ false = fails v (omega arith) (omega arith) in
    rw first (
      picks_skip p (v + 1) n k (omega arith) (λ i lo hi. fails i (omega arith) (omega arith))
      ∙ picks-eq p (omega arith) (omega arith))

-- Tests that agree on a stretch pick the same numbers from it.
pub picks_congr :
    (p q : ℕ → Bool) (v n : ℕ)
    → ((i : ℕ) → v ≤ i → i < v + n → p i ≡ q i)
    → picks p v n ≡ picks q v n
unfolding picks
picks_congr p q v zero same = refl
picks_congr p q v (suc n) same = rw (
  same v (omega arith) (omega arith),
  picks_congr p q (v + 1) n (λ i lo hi. same i (omega arith) (omega arith)),
)

pub length-picks_all :
    (p : ℕ → Bool) (v n : ℕ) → ((i : ℕ) → v ≤ i → i < v + n → p i ≡ true) → length (picks p v n) ≡ n
unfolding picks
length-picks_all p v zero all = refl
length-picks_all p v (suc n) all =
    rw (all v (omega arith) (omega arith))
      (omega (arith, length-picks_all p (v + 1) n (λ i lo hi. all i (omega arith) (omega arith))))

pub length-picks_split :
    (p : ℕ → Bool) (v n k : ℕ)
    → k ≤ n
    → length (picks p v n) ≡ length (picks p v k) + length (picks p (v + k) (n - k))
unfolding picks
length-picks_split p v n zero h =
    let same : picks p v n ≡ picks p (v + 0) (n - 0) = picks-eq p (omega arith) (omega arith) in
    omega (arith, ap length same)
length-picks_split p v zero (suc k) h = absurd (omega arith)
length-picks_split p v (suc n) (suc k) h =
    let ih = length-picks_split p (v + 1) n k (omega arith) in
    let same : picks p (v + 1 + k) (n - k) ≡ picks p (v + suc k) (suc n - suc k) =
      picks-eq p (omega arith) (omega arith) in
    elim (Bool-cases (p v)) [
      | inl here ↦ rw here (omega (arith, ih, ap length same))
      | inr away ↦ rw away (omega (arith, ih, ap length same))
    ]
