-- ===== src/Model/Mask/Laws.antt =====
-- internal/model/record.go: what `ParseStatuses` accepts and returns.
use native.Mathlib.Numerals.{add-one}
use r_dns_crawler.Base.{
  ℕ, zero, suc, ◌<◌, ◌≡◌, refl, sym, ap, ◌∙◌, true, false, not, ◌&&◌, ◌||◌, ◌^◌, Bool, List, [],
  ◌∷◌, ◌++◌, some, none, Bytes, bytes_eq, bytes_eq_refl, bytes_eq→eq, arith, ==→eq, ==→ne, ◌==◌,
  ◌+◌, split, join, trim_space, bytes_nil, bit_or, ltb, ltb→lt, bool_eq, bool_eq→eq, and_left,
  and_right, not-true, Bool-cases, inl, inr, ◌⊎◌, All, if◌then◌else◌, Option-cases,
}
use r_dns_crawler.Base.Results.{Result, ok, err}
use r_dns_crawler.Base.Tables.{all_below, all_below→holds}
use r_dns_crawler.Model.Status.{status_to_code, status_string, code}
use r_dns_crawler.Model.Status.Laws.{status_to_code-some, code-status_string}
use r_dns_crawler.Model.Mask.{
  ParseError, has, string, parse_parts, parse_statuses, unknown_status, empty_list,
}

abbrev reads_back : ℕ → Bool
reads_back m = elim (parse_statuses (string (m + 1))) [ ok n ↦ n == m + 1 | err e ↦ false ]

reads_back_table : all_below 255 reads_back ≡ true
unfolding all_below parse_statuses string status_to_code status_string bytes_eq split join
    trim_space
reads_back_table = refl

-- Every non-empty mask over the eight codes is read back from its print.
pub parse_statuses-string : (m : ℕ) → 0 < m → m < 256 → parse_statuses (string m) ≡ ok m
parse_statuses-string zero p h = absurd (omega arith)
parse_statuses-string (suc m) p h =
    rw (← add-one) (result_of _ (all_below→holds 255 reads_back reads_back_table m (omega arith)))
  where
    result_of :
        (r : Result ParseError ℕ)
        → elim r [ ok n ↦ n == m + 1 | err e ↦ false ] ≡ true
        → r ≡ ok (m + 1)
    result_of (ok n) e = ap ok (==→eq n (m + 1) e)
    result_of (err x) e = cc

-- Setting bit `c` of a mask below 256.
set_bit_table :
    all_below 256 (λ m. all_below 8 (λ c.
      ltb (bit_or m (2 ^ c)) 256
      && all_below 8 (λ d. bool_eq (has (bit_or m (2 ^ c)) d) (has m d || c == d))))
    ≡ true
unfolding all_below has
set_bit_table = refl

module _ (m c : ℕ) (hm : m < 256) (hc : c < 8) where
  set_bit_both :
      ltb (bit_or m (2 ^ c)) 256
        && all_below 8 (λ d. bool_eq (has (bit_or m (2 ^ c)) d) (has m d || c == d))
      ≡ true
  set_bit_both = all_below→holds 8 _ (all_below→holds 256 _ set_bit_table m hm) c hc

  set_bit-lt : bit_or m (2 ^ c) < 256
  set_bit-lt = ltb→lt _ _ (and_left _ _ set_bit_both)

  has-set_bit : (d : ℕ) → d < 8 → has (bit_or m (2 ^ c)) d ≡ (has m d || c == d)
  has-set_bit d hd = bool_eq→eq _ _ (all_below→holds 8 _ (and_right _ _ set_bit_both) d hd)

-- Whether some part names the code `d`.
abbrev pub names_code : ℕ → List Bytes → Bool
names_code d [] = false
names_code d (p ∷ ps) = bytes_eq (trim_space p) (status_string d) || names_code d ps

-- A part is blank or the name of a status.
abbrev pub IsListed : Bytes → Type 0
IsListed p =
    (bytes_nil (trim_space p) ≡ true) ⊎ ((c : ℕ) × (status_to_code (trim_space p) ≡ some c))

name_eq_code :
    (p : Bytes) (c d : ℕ)
    → status_to_code p ≡ some c
    → d < 8
    → bytes_eq p (status_string d) ≡ (c == d)
name_eq_code p c d h hd =
    let (hc, e) = status_to_code-some p c h in
    elim (Bool-cases (c == d)) [
      | inl same ↦ rw (same, ← ==→eq c d same, e) (bytes_eq_refl p)
      | inr other ↦ rw other (elim (Bool-cases (bytes_eq p (status_string d))) [
        | inl q ↦
            let r : c ≡ d =
              sym (code-status_string c hc)
              ∙ ap code (e ∙ bytes_eq→eq p (status_string d) q)
              ∙ code-status_string d hd in
            absurd (==→ne c d other r)
        | inr q ↦ q
      ])
    ]

blank_names_none :
    (p : Bytes) (d : ℕ) → bytes_nil p ≡ true → d < 8 → bytes_eq p (status_string d) ≡ false
unfolding bytes_eq status_string
blank_names_none [] d h hd = not-true _ (all_below→holds 8 _ table d hd)
  where
    table : all_below 8 (λ d. not (bytes_eq [] (status_string d))) ≡ true
    table = unfold all_below in refl
blank_names_none (c ∷ p) d h hd = cc

-- What a successful run over the parts says, from a mask `m` on.
abbrev Describes : List Bytes → ℕ → ℕ → Type 0
Describes ps m r =
    (r < 256) × All IsListed ps × ((d : ℕ) → d < 8 → has r d ≡ (has m d || names_code d ps))

parse_parts-Describes :
    (ps : List Bytes) (m r : ℕ) → m < 256 → parse_parts ps m ≡ ok r → Describes ps m r
unfolding parse_parts
parse_parts-Describes [] m r hm e = ground arith
parse_parts-Describes (p ∷ ps) m r hm e = elim (Bool-cases (bytes_nil (trim_space p))) [
  | inl blank ↦
      let (lt, listed, bits) = parse_parts-Describes ps m r hm (rw blank at e) in
      (lt, (inl blank, listed), λ d hd. rw (bits d hd, blank_names_none (trim_space p) d blank hd))
  | inr word ↦ elim (Option-cases (status_to_code (trim_space p))) [
    | inl unknown ↦ absurd (ground arith)
    | inr (c, known) ↦
        let (hc, name) = status_to_code-some (trim_space p) c known in
        let (lt, listed, bits) =
          parse_parts-Describes ps (bit_or m (2 ^ c)) r (set_bit-lt m c hm hc) (ground arith) in
        (
          lt,
          (inr (c, known), listed),
          λ d hd. ground (
            arith,
            bits d hd,
            has-set_bit m c hm hc d hd,
            name_eq_code (trim_space p) c d known hd,
          ),
        )
  ]
]

has_zero : (d : ℕ) → d < 8 → has 0 d ≡ false
has_zero d hd = not-true _ (all_below→holds 8 (λ d. not (has 0 d)) table d hd)
  where
    table : all_below 8 (λ d. not (has 0 d)) ≡ true
    table = unfold all_below has in refl

parse_statuses_ok :
    (r : Result ParseError ℕ) (m : ℕ)
    → elim r [ err e ↦ err e | ok n ↦ if n == 0 then err empty_list else ok n ] ≡ ok m
    → (r ≡ ok m) × (0 < m)
parse_statuses_ok (ok n) m e = ground arith
parse_statuses_ok (err x) m e = cc

-- An accepted list names statuses only (blank parts are skipped), at least one of them; the mask
-- has no bit above the eight codes, and it holds one of these codes exactly when the list names it.
pub parse_statuses_sound :
    (csv : Bytes) (m d : ℕ)
    → parse_statuses csv ≡ ok m
    → d < 8
    → (0 < m)
      × (m < 256)
      × All IsListed (split csv b',')
      × (has m d ≡ names_code d (split csv b','))
unfolding parse_statuses
parse_statuses_sound csv m d e hd =
    let (ran, nonzero) = parse_statuses_ok (parse_parts (split csv b',') 0) m e in
    let (lt, listed, bits) = parse_parts-Describes (split csv b',') 0 m (omega arith) ran in
    (nonzero, lt, listed, rw (bits d hd, has_zero d hd))

parse_parts_unknown :
    (qs ps : List Bytes) (p : Bytes) (m : ℕ)
    → bytes_nil (trim_space p) ≡ false
    → status_to_code (trim_space p) ≡ none
    → (e : ParseError) × (parse_parts (qs ++ (p ∷ ps)) m ≡ err e)
unfolding parse_parts
parse_parts_unknown [] ps p m w u = (unknown_status (trim_space p), ground arith)
parse_parts_unknown (q ∷ qs) ps p m w u = elim (Bool-cases (bytes_nil (trim_space q))) [
  | inl blank ↦ rw blank (parse_parts_unknown qs ps p m w u)
  | inr word ↦ elim (Option-cases (status_to_code (trim_space q))) [
    | inl unknown ↦ (unknown_status (trim_space q), ground arith)
    | inr (c, known) ↦
        let (e, h) = parse_parts_unknown qs ps p (bit_or m (2 ^ c)) w u in (e, ground arith)
  ]
]

-- A part that is neither blank nor the name of a status makes the whole list an error, whatever
-- stands before and behind it.
pub parse_statuses_unknown :
    (csv : Bytes) (qs ps : List Bytes) (p : Bytes)
    → split csv b',' ≡ qs ++ (p ∷ ps)
    → bytes_nil (trim_space p) ≡ false
    → status_to_code (trim_space p) ≡ none
    → (e : ParseError) × (parse_statuses csv ≡ err e)
unfolding parse_statuses
parse_statuses_unknown csv qs ps p h w u =
    let (e, r) = parse_parts_unknown qs ps p 0 w u in (e, rw (parse_statuses, h, r))
