-- ===== src/Merge/Names/Sort.antt =====
-- sort.Strings, as `hashNames` of internal/merge/merge.go calls it.
use mathlib.Core.List.{Permᴰ}
use r_dns_crawler.Base.{
  ◌≡◌, refl, sym, ap, ◌∙◌, Bool, true, false, List, [], ◌∷◌, Bytes, ltb, ◌==◌, if◌then◌else◌, arith,
  Bool-cases, inl, inr, subst, ==→eq,
}

-- `s <= t`.
unfoldable pub bytes_leb : Bytes → Bytes → Bool
bytes_leb [] t = true
bytes_leb (a ∷ s) [] = false
bytes_leb (a ∷ s) (b ∷ t) =
    let rest = bytes_leb s t in if ltb a b then true else if a == b then rest else false

unfoldable pub insert_string : Bytes → List Bytes → List Bytes
insert_string s [] = s ∷ []
insert_string s (t ∷ ts) = if bytes_leb s t then s ∷ t ∷ ts else t ∷ insert_string s ts

unfoldable pub sort_strings : List Bytes → List Bytes
unfolding insert_string
sort_strings [] = []
sort_strings (s ∷ ss) = insert_string s (sort_strings ss)

leb_total : (s t : Bytes) → bytes_leb s t ≡ false → bytes_leb t s ≡ true
unfolding bytes_leb
leb_total [] t h = absurd (ground arith)
leb_total (a ∷ s) [] h = refl
leb_total (a ∷ s) (b ∷ t) h = ground (arith, leb_total s t)

leb_antisym : (s t : Bytes) → bytes_leb s t ≡ true → bytes_leb t s ≡ true → s ≡ t
unfolding bytes_leb
leb_antisym [] [] h k = refl
leb_antisym [] (b ∷ t) h k = absurd (ground arith)
leb_antisym (a ∷ s) [] h k = absurd (ground arith)
leb_antisym (a ∷ s) (b ∷ t) h k = elim (Bool-cases (a == b)) [
  | inl same ↦
      let e = ==→eq a b same in (λ i. e i ∷ leb_antisym s t (ground arith) (ground arith) i)
  | inr differ ↦ absurd (ground arith)
]

leb_trans : (s t u : Bytes) → bytes_leb s t ≡ true → bytes_leb t u ≡ true → bytes_leb s u ≡ true
unfolding bytes_leb
leb_trans [] t u h k = refl
leb_trans (a ∷ s) [] u h k = absurd (ground arith)
leb_trans (a ∷ s) (b ∷ t) [] h k = absurd (ground arith)
leb_trans (a ∷ s) (b ∷ t) (c ∷ u) h k = ground (arith, leb_trans s t u)

insert_less :
    (s t : Bytes) (l : List Bytes)
    → bytes_leb s t ≡ true
    → bytes_leb t s ≡ false
    → insert_string s (insert_string t l) ≡ insert_string t (insert_string s l)
unfolding insert_string
insert_less s t [] st ts = rw (st, ts) refl
insert_less s t (u ∷ l) st ts = elim (Bool-cases (bytes_leb t u)) [
  | inl tu ↦ let su = leb_trans s t u st tu in rw (tu, su, st, ts, tu) refl
  | inr tu ↦ elim (Bool-cases (bytes_leb s u)) [
    | inl su ↦ rw (tu, su, ts, tu) refl
    | inr su ↦ rw (tu, su, tu) (ap (λ k. u ∷ k) (insert_less s t l st ts))
  ]
]

insert-insert :
    (s t : Bytes) (l : List Bytes)
    → insert_string s (insert_string t l) ≡ insert_string t (insert_string s l)
insert-insert s t l = elim (Bool-cases (bytes_leb s t)) [
  | inl st ↦ elim (Bool-cases (bytes_leb t s)) [
    | inl ts ↦
        subst (λ x. insert_string s (insert_string x l) ≡ insert_string x (insert_string s l))
          (leb_antisym s t st ts) refl
    | inr ts ↦ insert_less s t l st ts
  ]
  | inr st ↦ sym (insert_less t s l (leb_total s t st) st)
]

pub sort_strings-perm : {ss ts : List Bytes} → Permᴰ ss ts → sort_strings ss ≡ sort_strings ts
unfolding sort_strings
sort_strings-perm Permᴰ.nil = refl
sort_strings-perm (Permᴰ.cons e p) = λ i. insert_string (e i) (sort_strings-perm p i)
sort_strings-perm (Permᴰ.swap {a} {b} {a'} {b'} {l} e f) =
    insert-insert a b (sort_strings l)
    ∙ (λ i. insert_string (f i) (insert_string (e i) (sort_strings l)))
sort_strings-perm (Permᴰ.trans p q) = sort_strings-perm p ∙ sort_strings-perm q
