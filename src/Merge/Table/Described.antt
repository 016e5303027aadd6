-- ===== src/Merge/Table/Described.antt =====
-- internal/merge/merge.go: an entry of the table beside the record that it was made of, used or not.
use r_dns_crawler.Base.{
  ℕ, zero, suc, ◌<◌, ◌≡◌, ◌≢◌, refl, ◌∙◌, bit_and, bit_or, Bool, true, ◌&&◌, List, [], ◌∷◌, Option,
  some, none, Bytes, ltb, ◌==◌, if◌then◌else◌, arith, All, Lacks, Bool-cases, inl, inr,
}
use r_dns_crawler.Base.Tables.{all_below, all_below→holds}
use r_dns_crawler.Store.Block.{Rec}
use r_dns_crawler.Merge.Load.{Ent, ent_names}
use r_dns_crawler.Merge.Table.{first_ent, Ascending}
use r_dns_crawler.Merge.Spec.{observation}
use r_dns_crawler.Merge.Shard.{to_record, ent_record, set_used}

-- A record as the crawler writes it: one of the eight codes, names where and only where there is a
-- PTR, and no name with a zero byte.
abbrev pub IsObservation : Rec → Type 0
IsObservation r =
    (ltb r.status 8 ≡ true)
    × (r.status ≡ 0 → r.ptr ≢ [])
    × (r.status ≢ 0 → r.ptr ≡ [])
    × All (Lacks 0) r.ptr

-- An entry holds what the merge needs of a record.
abbrev pub Describes : Bytes → Ent → Rec → Type 0
Describes arena e r =
    (e.ip ≡ r.ip)
    × (e.sf < 256)
    × (bit_and e.sf 15 ≡ r.status)
    × (ltb r.status 8 ≡ true)
    × (ent_record r.ip e (if r.status == 0 then ent_names arena e else []) ≡ to_record r)

abbrev pub Matches : Bytes → Option Ent → Option Rec → Type 0
Matches arena none none = Unit
Matches arena none (some r) = ⊥
Matches arena (some e) none = ⊥
Matches arena (some e) (some r) = Describes arena e r

-- The used bit.
same_bits : ℕ → Bool
same_bits s =
    ltb (bit_or s 128) 256
    && (bit_and (bit_or s 128) 15 == bit_and s 15)
    && (bit_and (bit_or s 128) 16 == bit_and s 16)
    && (bit_and (bit_or s 128) 32 == bit_and s 32)

same_bits_table : all_below 256 same_bits ≡ true
unfolding all_below same_bits
same_bits_table = refl

used_lem :
    (s : ℕ)
    → s < 256
    → (bit_or s 128 < 256)
      × (bit_and (bit_or s 128) 15 ≡ bit_and s 15)
      × (bit_and (bit_or s 128) 16 ≡ bit_and s 16)
      × (bit_and (bit_or s 128) 32 ≡ bit_and s 32)
unfolding same_bits
used_lem s h = let t = all_below→holds 256 same_bits same_bits_table s h in ground arith

pub used-Describes :
    (arena : Bytes) (e : Ent) (r : Rec)
    → Describes arena e r
    → Describes arena (record e { sf = bit_or e.sf 128 }) r
unfolding ent_record ent_names
used-Describes arena e r (ip, small, status, low, same) =
    let (lt, e15, e16, e32) = used_lem e.sf small in
    (ip, lt, e15 ∙ status, low, rw (e15, e16, e32) same)

pub Matches-set_used :
    (arena : Bytes) (ip i : ℕ) (es : List Ent) (o : Option Rec)
    → Matches arena (first_ent ip es) o
    → Matches arena (first_ent ip (set_used i es)) o
unfolding set_used
Matches-set_used arena ip i [] o h = h
Matches-set_used arena ip zero (e ∷ es) o h = elim (Bool-cases (e.ip == ip)) [
  | inl same ↦ rw same (used o (rw same at h))
  | inr differ ↦ rw differ (rw differ at h)
]
  where
    used :
        (o : Option Rec)
        → Matches arena (some e) o
        → Matches arena (some (record e { sf = bit_or e.sf 128 })) o
    used none h = h
    used (some r) h = used-Describes arena e r h
Matches-set_used arena ip (suc i) (e ∷ es) o h = elim (Bool-cases (e.ip == ip)) [
  | inl same ↦ rw same (rw same at h)
  | inr differ ↦ rw differ (Matches-set_used arena ip i es o (rw differ at h))
]

set_used-Above :
    (k i : ℕ) (es : List Ent) → All (λ d. k < d.ip) es → All (λ d. k < d.ip) (set_used i es)
unfolding set_used
set_used-Above k i [] h = h
set_used-Above k zero (e ∷ es) h = h
set_used-Above k (suc i) (e ∷ es) h = (h.0, set_used-Above k i es h.1)

pub set_used-Ascending : (i : ℕ) (es : List Ent) → Ascending es → Ascending (set_used i es)
unfolding set_used
set_used-Ascending i [] h = h
set_used-Ascending zero (e ∷ es) h = h
set_used-Ascending (suc i) (e ∷ es) h = (set_used-Above e.ip i es h.0, set_used-Ascending i es h.1)

-- The table is in order, and describes the new pass.
abbrev pub Tracks : Bytes → List Rec → List Ent → Type 0
Tracks arena news es =
    Ascending es × ((ip : ℕ) → Matches arena (first_ent ip es) (observation ip news))
