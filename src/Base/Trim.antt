-- ===== src/Base/Trim.antt =====
-- `strings.TrimSpace` a second time, and on texts that begin with other ASCII characters.
use r_dns_crawler.Base.Tests.{Bool-cases}
use r_dns_crawler.Base.Lists.{length}
use r_dns_crawler.Base.Text.{
  Bytes, bytes_nil, is_space, is_space2, is_space3, Pending, start, after, after2, trim_from,
  trim_left, trim_right, trim_space,
}
use Prim.Native.Nat.{ℕ, ◌+◌, ◌<◌, ◌≤◌}
use mathlib.Core.Bool.{true, false}
use mathlib.Core.Logic.{◌⊎◌, inl, inr}
use mathlib.Core.Path.{◌≡◌, refl, sym, ap, ◌∙◌}
use mathlib.Core.List.{[], ◌∷◌}
use native.Mathlib.Omega.{arith}

-- A byte that begins no white space in two or three bytes.
ascii_no_space2 : (a b : ℕ) → a < 128 → is_space2 a b ≡ false
unfolding is_space2
ascii_no_space2 a b h = ground arith

ascii_no_space3 : (a b c : ℕ) → a < 128 → is_space3 a b c ≡ false
unfolding is_space3
ascii_no_space3 a b c h = ground arith

-- The steps of `trim_from`.
skips : (a : ℕ) (s : Bytes) → is_space a ≡ true → trim_from start (a ∷ s) ≡ trim_from start s
unfolding trim_from
skips a s h = rw (h, trim_from) refl

waits : (a : ℕ) (s : Bytes) → is_space a ≡ false → trim_from start (a ∷ s) ≡ trim_from (after a) s
unfolding trim_from
waits a s h = rw (h, trim_from) refl

skips2 :
    (a b : ℕ) (s : Bytes) → is_space2 a b ≡ true → trim_from (after a) (b ∷ s) ≡ trim_from start s
unfolding trim_from
skips2 a b s h = rw (h, trim_from) refl

waits2 :
    (a b : ℕ) (s : Bytes)
    → is_space2 a b ≡ false
    → trim_from (after a) (b ∷ s) ≡ trim_from (after2 a b) s
unfolding trim_from
waits2 a b s h = rw (h, trim_from) refl

skips3 :
    (a b c : ℕ) (s : Bytes)
    → is_space3 a b c ≡ true
    → trim_from (after2 a b) (c ∷ s) ≡ trim_from start s
unfolding trim_from
skips3 a b c s h = rw (h, trim_from) refl

stays :
    (a b c : ℕ) (s : Bytes)
    → is_space3 a b c ≡ false
    → trim_from (after2 a b) (c ∷ s) ≡ a ∷ b ∷ c ∷ s
unfolding trim_from
stays a b c s h = rw (h, trim_from) refl

-- A byte that begins no white space.
stays_whole :
    (a : ℕ) (s : Bytes)
    → is_space a ≡ false
    → ((b : ℕ) → is_space2 a b ≡ false)
    → ((b c : ℕ) → is_space3 a b c ≡ false)
    → trim_left (a ∷ s) ≡ a ∷ s
unfolding trim_from
stays_whole a [] h h2 h3 = waits a [] h
stays_whole a (b ∷ []) h h2 h3 = waits a (b ∷ []) h ∙ waits2 a b [] (h2 b)
stays_whole a (b ∷ c ∷ s) h h2 h3 =
    waits a (b ∷ c ∷ s) h ∙ waits2 a b (c ∷ s) (h2 b) ∙ stays a b c s (h3 b c)

pub trim_left_cons : (c : ℕ) (s : Bytes) → c < 128 → is_space c ≡ false → trim_left (c ∷ s) ≡ c ∷ s
trim_left_cons c s h other =
    stays_whole c s other (λ a. ascii_no_space2 c a h) (λ a b. ascii_no_space3 c a b h)

pub trim_right_cons :
    (c : ℕ) (s : Bytes) → c < 128 → is_space c ≡ false → trim_right (c ∷ s) ≡ c ∷ trim_right s
unfolding trim_right
trim_right_cons c s h other = rw (ap bytes_nil (trim_left_cons c s h other)) refl

-- The bytes that are pending begin no shorter white space.
abbrev IsPending : Pending → Type 0
IsPending start = Unit
IsPending (after a) = is_space a ≡ false
IsPending (after2 a b) = (is_space a ≡ false) × (is_space2 a b ≡ false)

trim_left-trim_from :
    (p : Pending) (s : Bytes) → IsPending p → trim_left (trim_from p s) ≡ trim_from p s
unfolding trim_from
trim_left-trim_from start [] h = refl
trim_left-trim_from (after a) [] h = waits a [] h
trim_left-trim_from (after2 a b) [] h = waits a (b ∷ []) h.0 ∙ waits2 a b [] h.1
trim_left-trim_from start (a ∷ s) h = elim (Bool-cases (is_space a)) [
  | inl space ↦ rw (skips a s space) (trim_left-trim_from start s tt)
  | inr other ↦ rw (waits a s other) (trim_left-trim_from (after a) s other)
]
trim_left-trim_from (after a) (b ∷ s) h = elim (Bool-cases (is_space2 a b)) [
  | inl space ↦ rw (skips2 a b s space) (trim_left-trim_from start s tt)
  | inr other ↦ rw (waits2 a b s other) (trim_left-trim_from (after2 a b) s (h, other))
]
trim_left-trim_from (after2 a b) (c ∷ s) h = elim (Bool-cases (is_space3 a b c)) [
  | inl space ↦ rw (skips3 a b c s space) (trim_left-trim_from start s tt)
  | inr other ↦
      rw (stays a b c s other)
        (waits a (b ∷ c ∷ s) h.0 ∙ waits2 a b (c ∷ s) h.1 ∙ stays a b c s other)
]

-- A text of white space begins with a byte that stands at no other place of a code point.
starting : (c : ℕ) (s : Bytes) → bytes_nil (trim_left (c ∷ s)) ≡ true → (c < 128) ⊎ (193 < c)
unfolding trim_from is_space is_space2 is_space3
starting c [] h = ground arith
starting c (a ∷ []) h = ground arith
starting c (a ∷ b ∷ s) h = ground arith

space2_later : (a b : ℕ) → is_space2 a b ≡ true → (127 < b) × (b < 194)
unfolding is_space2
space2_later a b h = ground arith

space3_later : (a b c : ℕ) → is_space3 a b c ≡ true → (127 < b) × (b < 194) × (127 < c) × (c < 194)
unfolding is_space3
space3_later a b c h = ground arith

-- Behind pending bytes stands no text of white space that would go on with them.
pending_blank :
    (p : Pending) (c : ℕ) (s : Bytes)
    → bytes_nil (trim_left (c ∷ s)) ≡ true
    → bytes_nil (trim_from p []) ≡ bytes_nil (trim_from p (c ∷ s))
unfolding trim_from
pending_blank start c s h = sym h
pending_blank (after a) c [] h = elim (Bool-cases (is_space2 a c)) [
  | inl space ↦ absurd (omega (arith, space2_later a c space, starting c [] h))
  | inr other ↦ rw (waits2 a c [] other) refl
]
pending_blank (after a) c (d ∷ s) h = elim (Bool-cases (is_space2 a c)) [
  | inl space ↦ absurd (omega (arith, space2_later a c space, starting c (d ∷ s) h))
  | inr other ↦ elim (Bool-cases (is_space3 a c d)) [
    | inl wide ↦ absurd (omega (arith, space3_later a c d wide, starting c (d ∷ s) h))
    | inr more ↦ rw (waits2 a c (d ∷ s) other, stays a c d s more) refl
  ]
]
pending_blank (after2 a b) c s h = elim (Bool-cases (is_space3 a b c)) [
  | inl wide ↦ absurd (omega (arith, space3_later a b c wide, starting c s h))
  | inr more ↦ rw (stays a b c s more) refl
]

-- One more byte in front of two texts that are white space behind the same pending bytes.
same_blank :
    (p : Pending) (c : ℕ) (s t : Bytes)
    → ((q : Pending) → bytes_nil (trim_from q t) ≡ bytes_nil (trim_from q s))
    → bytes_nil (trim_from p (c ∷ t)) ≡ bytes_nil (trim_from p (c ∷ s))
same_blank start c s t h = elim (Bool-cases (is_space c)) [
  | inl space ↦ rw (skips c t space, skips c s space) (h start)
  | inr other ↦ rw (waits c t other, waits c s other) (h (after c))
]
same_blank (after a) c s t h = elim (Bool-cases (is_space2 a c)) [
  | inl space ↦ rw (skips2 a c t space, skips2 a c s space) (h start)
  | inr other ↦ rw (waits2 a c t other, waits2 a c s other) (h (after2 a c))
]
same_blank (after2 a b) c s t h = elim (Bool-cases (is_space3 a b c)) [
  | inl space ↦ rw (skips3 a b c t space, skips3 a b c s space) (h start)
  | inr other ↦ rw (stays a b c t other, stays a b c s other) refl
]

-- A text is white space, behind pending bytes, if it is without the white space at its end.
trim_right_blank :
    (p : Pending) (s : Bytes) → bytes_nil (trim_from p (trim_right s)) ≡ bytes_nil (trim_from p s)
unfolding trim_right
trim_right_blank p [] = refl
trim_right_blank p (c ∷ s) = elim (Bool-cases (bytes_nil (trim_left (c ∷ s)))) [
  | inl blank ↦ rw (blank, trim_right) (pending_blank p c s blank)
  | inr text ↦ rw (text, trim_right) (same_blank p c s (trim_right s) (λ q. trim_right_blank q s))
]

trim_right-trim_right : (s : Bytes) → trim_right (trim_right s) ≡ trim_right s
unfolding trim_right
trim_right-trim_right [] = refl
trim_right-trim_right (c ∷ s) = elim (Bool-cases (bytes_nil (trim_left (c ∷ s)))) [
  | inl blank ↦ rw (blank, trim_right) refl
  | inr text ↦
      let still = same_blank start c s (trim_right s) (λ q. trim_right_blank q s) ∙ text in
      rw (text, trim_right) (rw (still, trim_right) (ap (λ l. c ∷ l) (trim_right-trim_right s)))
]

abbrev size : Pending → ℕ
size start = 0
size (after a) = 1
size (after2 a b) = 2

length-trim_from : (p : Pending) (s : Bytes) → length (trim_from p s) ≤ size p + length s
unfolding trim_from
length-trim_from start [] = omega arith
length-trim_from (after a) [] = omega arith
length-trim_from (after2 a b) [] = omega arith
length-trim_from start (a ∷ s) = elim (Bool-cases (is_space a)) [
  | inl space ↦ rw (skips a s space) (omega (arith, length-trim_from start s))
  | inr other ↦ rw (waits a s other) (omega (arith, length-trim_from (after a) s))
]
length-trim_from (after a) (b ∷ s) = elim (Bool-cases (is_space2 a b)) [
  | inl space ↦ rw (skips2 a b s space) (omega (arith, length-trim_from start s))
  | inr other ↦ rw (waits2 a b s other) (omega (arith, length-trim_from (after2 a b) s))
]
length-trim_from (after2 a b) (c ∷ s) = elim (Bool-cases (is_space3 a b c)) [
  | inl space ↦ rw (skips3 a b c s space) (omega (arith, length-trim_from start s))
  | inr other ↦ rw (stays a b c s other) (omega arith)
]

abbrev before : Pending → Bytes → Bytes
before start s = s
before (after a) s = a ∷ s
before (after2 a b) s = a ∷ b ∷ s

nothing_left : (p : Pending) → trim_from p [] ≡ before p []
unfolding trim_from
nothing_left start = refl
nothing_left (after a) = refl
nothing_left (after2 a b) = refl

one_more :
    (p : Pending) (c : ℕ) (s t : Bytes)
    → trim_from p (c ∷ s) ≡ before p (c ∷ s)
    → ((q : Pending) → trim_from q s ≡ before q s → trim_from q t ≡ before q t)
    → trim_from p (c ∷ t) ≡ before p (c ∷ t)
one_more start c s t h next = elim (Bool-cases (is_space c)) [
  | inl space ↦
      absurd (omega (arith, length-trim_from start s, ap length (sym (skips c s space) ∙ h)))
  | inr other ↦ waits c t other ∙ next (after c) (sym (waits c s other) ∙ h)
]
one_more (after a) c s t h next = elim (Bool-cases (is_space2 a c)) [
  | inl space ↦
      absurd (omega (arith, length-trim_from start s, ap length (sym (skips2 a c s space) ∙ h)))
  | inr other ↦ waits2 a c t other ∙ next (after2 a c) (sym (waits2 a c s other) ∙ h)
]
one_more (after2 a b) c s t h next = elim (Bool-cases (is_space3 a b c)) [
  | inl space ↦
      absurd (omega (arith, length-trim_from start s, ap length (sym (skips3 a b c s space) ∙ h)))
  | inr other ↦ stays a b c t other
]

-- A text without white space in front has none without the white space at its end.
front_stays :
    (p : Pending) (s : Bytes)
    → trim_from p s ≡ before p s
    → trim_from p (trim_right s) ≡ before p (trim_right s)
unfolding trim_from trim_right
front_stays p [] h = nothing_left p
front_stays p (c ∷ s) h = elim (Bool-cases (bytes_nil (trim_left (c ∷ s)))) [
  | inl blank ↦ rw (blank, trim_right) (nothing_left p)
  | inr text ↦ rw (text, trim_right) (one_more p c s (trim_right s) h (λ q. front_stays q s))
]

pub trim_space-trim_space : (s : Bytes) → trim_space (trim_space s) ≡ trim_space s
unfolding trim_space
trim_space-trim_space s =
    ap trim_right (front_stays start (trim_left s) (trim_left-trim_from start s tt))
    ∙ trim_right-trim_right (trim_left s)
