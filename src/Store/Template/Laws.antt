-- ===== src/Store/Template/Laws.antt =====
-- internal/store/template.go: `encodeTemplate` and `decodeTemplate` together.
use r_dns_crawler.Base.{
  ℕ, zero, suc, ◌-◌, ◌/◌, ◌%◌, ◌^◌, ◌<◌, ◌≡◌, ◌≢◌, refl, ap, sym, ◌∙◌, [], ◌∷◌, ◌++◌, Bytes,
  strip_prefix, strip_prefix→eq, length, flat_map, append_assoc, append-nil, drop, drop_of_append,
  arith, All, All-append, codes, Option-cases, inl, inr,
}
use r_dns_crawler.Store.Template.{
  m_fwd_dash, m_rev_dash, m_fwd_dot, m_rev_dot, itoa, join4, replace_from, replace_all,
  encode_template, restore, decode_template,
}

decode_sample :
    decode_template 0x8de67220
      (encode_template 0x8de67220 (codes "ec2-141-230-114-32.x.141.230.114.32.com"))
    ≡ codes "ec2-141-230-114-32.x.141.230.114.32.com"
unfolding decode_template encode_template replace_all replace_from strip_prefix join4 itoa flat_map
decode_sample = refl

encode_sample :
    encode_template 0x8de67220 (codes "ec2-141-230-114-32.com") ≡ codes "ec2-" ++ (1 ∷ codes ".com")
unfolding encode_template replace_all replace_from strip_prefix join4 itoa flat_map
encode_sample = refl

-- A byte that stands for itself.
abbrev pub IsPlain : ℕ → Type 0
IsPlain c = (c ≢ m_fwd_dash) × (c ≢ m_rev_dash) × (c ≢ m_fwd_dot) × (c ≢ m_rev_dot)

decode_template-append :
    (ip : ℕ) (s t : Bytes)
    → decode_template ip (s ++ t) ≡ decode_template ip s ++ decode_template ip t
unfolding decode_template flat_map
decode_template-append ip [] t = refl
decode_template-append ip (c ∷ s) t = simp (decode_template-append ip s t, append_assoc)

restore_plain : (ip c : ℕ) → IsPlain c → restore ip c ≡ c ∷ []
unfolding restore
restore_plain ip c h = ground arith

decode_template_plain : (ip : ℕ) (s : Bytes) → All IsPlain s → decode_template ip s ≡ s
unfolding decode_template flat_map
decode_template_plain ip [] h = refl
decode_template_plain ip (c ∷ s) h = rw (restore_plain ip c h.0, decode_template_plain ip s h.1)

decode_template-cons :
    (ip c : ℕ) (s : Bytes)
    → decode_template ip (c ∷ s) ≡ decode_template ip (c ∷ []) ++ decode_template ip s
decode_template-cons ip c s = decode_template-append ip (c ∷ []) s

after_match : (c o : ℕ) (s os t : Bytes) → c ∷ s ≡ o ∷ (os ++ t) → drop (length (o ∷ os) - 1) s ≡ t
after_match c o s os t e =
    let k : length (o ∷ os) - 1 ≡ length os = omega arith in
    let s_eq : s ≡ os ++ t = cc in rw (k, s_eq) (drop_of_append os t)

-- Replacing a text by another that decodes alike changes nothing for the decoder.
module _ (ip o : ℕ) (os new : Bytes)
    (alike : decode_template ip new ≡ decode_template ip (o ∷ os)) where
  decode_template-replace_from :
      (skip : ℕ) (s : Bytes)
      → decode_template ip (replace_from skip (o ∷ os) new s) ≡ decode_template ip (drop skip s)
  unfolding replace_from
  decode_template-replace_from zero [] = refl
  decode_template-replace_from (suc skip) [] = refl
  decode_template-replace_from (suc skip) (c ∷ s) = decode_template-replace_from skip s
  decode_template-replace_from zero (c ∷ s) = elim (Option-cases (strip_prefix (o ∷ os) (c ∷ s))) [
    | inl unmatched ↦
        rw (unmatched, replace_from)
          (decode_template-cons ip c _
            ∙ ap (λ t. decode_template ip (c ∷ []) ++ t) (decode_template-replace_from 0 s)
            ∙ sym (decode_template-cons ip c s))
    | inr (t, found) ↦
        rw (found, replace_from)
          (decode_template-append ip new _
            ∙ ap (λ u. u ++ decode_template ip (replace_from (length (o ∷ os) - 1) (o ∷ os) new s))
                alike
            ∙ ap (λ u. decode_template ip (o ∷ os) ++ u)
                (decode_template-replace_from _ s
                  ∙ ap (decode_template ip) (after_match c o s os t (strip_prefix→eq _ _ found)))
            ∙ sym (decode_template-append ip (o ∷ os) t)
            ∙ ap (decode_template ip) (sym (strip_prefix→eq _ _ found)))
  ]

decode_template-replace_all :
    (ip : ℕ) (s old new : Bytes)
    → old ≢ []
    → decode_template ip new ≡ decode_template ip old
    → decode_template ip (replace_all s old new) ≡ decode_template ip s
unfolding replace_all
decode_template-replace_all ip s [] new h alike = absurd (h refl)
decode_template-replace_all ip s (o ∷ os) new h alike =
    decode_template-replace_from ip o os new alike 0 s

itoa-IsPlain : (v : ℕ) → v < 256 → All IsPlain (itoa v) × (itoa v ≢ [])
unfolding itoa
itoa-IsPlain v h = ground arith

append-ne-nil : (s t : Bytes) → s ≢ [] → (s ++ t) ≢ []
append-ne-nil [] t h = absurd (h refl)
append-ne-nil (c ∷ s) t h = λ e. cc

module _ (w x y z sep : ℕ) (hw : w < 256) (hx : x < 256) (hy : y < 256) (hz : z < 256) where
  join4-IsPlain : IsPlain sep → All IsPlain (join4 w x y z (sep ∷ []))
  unfolding join4
  join4-IsPlain h = All-append _ (itoa w) _ (itoa-IsPlain w hw).0 (
    h,
    All-append _ (itoa x) _ (itoa-IsPlain x hx).0
        (h, All-append _ (itoa y) _ (itoa-IsPlain y hy).0 (h, (itoa-IsPlain z hz).0)),
  )

  join4-ne-nil : join4 w x y z (sep ∷ []) ≢ []
  unfolding join4
  join4-ne-nil = append-ne-nil (itoa w) _ (itoa-IsPlain w hw).1

-- A marker decodes to the text that it replaced.
module _ (ip : ℕ) (hip : ip < 2 ^ 32) (m w x y z sep : ℕ) where
  cut_address :
      (s : Bytes)
      → (w < 256) × (x < 256) × (y < 256) × (z < 256)
      → IsPlain sep
      → restore ip m ≡ join4 w x y z (sep ∷ [])
      → decode_template ip (replace_all s (join4 w x y z (sep ∷ [])) (m ∷ []))
        ≡ decode_template ip s
  cut_address s (hw, hx, hy, hz) hs e =
      decode_template-replace_all ip s _ (m ∷ []) (join4-ne-nil w x y z sep hw hx hy hz)
        (marker ∙ sym (decode_template_plain ip _ (join4-IsPlain w x y z sep hw hx hy hz hs)))
    where
      marker : decode_template ip (m ∷ []) ≡ join4 w x y z (sep ∷ [])
      marker = unfold decode_template flat_map in rw append-nil e

-- A hostname without marker bytes is restored from its template, whatever forms of the address it
-- holds, overlapping ones included.
pub decode_template-encode_template :
    (ip : ℕ) (host : Bytes)
    → ip < 2 ^ 32
    → All IsPlain host
    → decode_template ip (encode_template ip host) ≡ host
unfolding encode_template
decode_template-encode_template ip host hip plain =
    cut_address ip hip m_rev_dot d c b a b'.' _ rev (ground arith) (unfold restore in refl)
    ∙ cut_address ip hip m_fwd_dot a b c d b'.' _ fwd (ground arith) (unfold restore in refl)
    ∙ cut_address ip hip m_rev_dash d c b a b'-' _ rev (ground arith) (unfold restore in refl)
    ∙ cut_address ip hip m_fwd_dash a b c d b'-' host fwd (ground arith) (unfold restore in refl)
    ∙ decode_template_plain ip host plain
  where
    a : ℕ
    a = ip / 2 ^ 24

    b : ℕ
    b = ip / 2 ^ 16 % 256

    c : ℕ
    c = ip / 2 ^ 8 % 256

    d : ℕ
    d = ip % 256

    fwd : (a < 256) × (b < 256) × (c < 256) × (d < 256)
    fwd = omega arith

    rev : (d < 256) × (c < 256) × (b < 256) × (a < 256)
    rev = omega arith
