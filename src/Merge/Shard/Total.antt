-- ===== src/Merge/Shard/Total.antt =====
-- internal/merge/merge.go: what the loop of `mergeShard` writes and counts.
use r_dns_crawler.Base.{
  some_injective, none_ne_some, ℕ, zero, suc, ◌+◌, ◌<◌, ◌≡◌, refl, sym, ap, ◌∙◌, bit_and, bit_or,
  Bool, true, false, ◌&&◌, ◌||◌, ◌%◌, ◌^◌, length, subst, List, [], ◌∷◌, Option, some, none, Bytes,
  ltb, ◌==◌, if◌then◌else◌, arith, All, Bool-cases, ==→eq, ltb→lt, Option-cases, inl, inr,
  get_elem?,
}
use r_dns_crawler.Base.Keyed.{search, find_by}
use r_dns_crawler.Base.Tables.{all_below, all_below→holds}
use r_dns_crawler.Model.Record.{Record}
use r_dns_crawler.Model.Mask.{has}
use r_dns_crawler.Model.Status.{code, status_string}
use r_dns_crawler.Model.Status.Laws.{code-status_string}
use r_dns_crawler.Store.Block.{Rec}
use r_dns_crawler.Base.Counters.{bump_at}
use r_dns_crawler.Merge.Names.{hash_names}
use r_dns_crawler.Merge.Load.{Ent, ent_names}
use r_dns_crawler.Merge.Shard.{
  Merging, to_record, ent_record, find, set_used, mark, write, write_old, count_names, merge_ent,
  merge_found, merge_new, merge_record, merge_records,
}

-- An entry as `loadNewShard` makes it of a record with one of the eight codes, used or not.
abbrev pub valid_flags : ℕ → Bool
valid_flags sf = ltb sf 256 && ltb (bit_and sf 15) 8

abbrev pub ValidEnts : List Ent → Type 0
ValidEnts = All (λ e. valid_flags e.sf ≡ true)

abbrev pub ValidRecs : List Rec → Type 0
ValidRecs = All (λ r. ltb r.status 8 ≡ true)

used_table : all_below 256 (λ s. if valid_flags s then valid_flags (bit_or s 128) else true) ≡ true
unfolding all_below
used_table = refl

used_valid : (sf : ℕ) → valid_flags sf ≡ true → valid_flags (bit_or sf 128) ≡ true
used_valid sf h =
    let t =
      all_below→holds 256 (λ s. if valid_flags s then valid_flags (bit_or s 128) else true)
        used_table sf (ground arith) in
    rw h at t

set_used-ValidEnts : (i : ℕ) (es : List Ent) → ValidEnts es → ValidEnts (set_used i es)
unfolding set_used
set_used-ValidEnts i [] h = tt
set_used-ValidEnts zero (e ∷ es) h = (used_valid e.sf h.0, h.1)
set_used-ValidEnts (suc i) (e ∷ es) h = (h.0, set_used-ValidEnts i es h.1)

ValidEnts-get :
    (es : List Ent) (i : ℕ) (e : Ent)
    → ValidEnts es
    → get_elem? es i ≡ some e
    → valid_flags e.sf ≡ true
ValidEnts-get [] i e v h = absurd (cc)
ValidEnts-get (d ∷ es) zero e v h =
    let same : d ≡ e = some_injective h in subst (λ x. valid_flags x.sf ≡ true) same v.0
ValidEnts-get (d ∷ es) (suc i) e v h = ValidEnts-get es i e v.1 h

find-valid :
    (es : List Ent) (ip i : ℕ) (e : Ent)
    → ValidEnts es
    → find es ip ≡ some (i, e)
    → valid_flags e.sf ≡ true
unfolding find find_by
find-valid es ip i e v h = elim (Option-cases (get_elem? es j)) [
  | inl nothing ↦ absurd (none_ne_some (rw (nothing, find_by) at h))
  | inr (d, got) ↦ elim (Bool-cases (d.ip == ip)) [
    | inl same ↦
        let e_eq : (j, d) ≡ (i, e) = some_injective (rw (got, find_by, same) at h) in
        subst (λ x. valid_flags x.1.sf ≡ true) e_eq (ValidEnts-get es j d v got)
    | inr differ ↦ absurd (none_ne_some (rw (got, find_by, differ) at h))
  ]
]
  where
    j : ℕ
    j = search (λ e. e.ip) (length es) es ip 0 (length es)

-- An array of counters behind the counting of the records' statuses, one by one.
abbrev pub tallied : List ℕ → List Record → List ℕ
tallied a [] = a
tallied a (r ∷ rs) = tallied (bump_at (code r.status) a) rs

-- How often an address occurs among the merged records, and in the baseline.
abbrev pub written_at : ℕ → List Record → ℕ
written_at ip [] = 0
written_at ip (r ∷ rs) = if r.ip_int == ip then written_at ip rs + 1 else written_at ip rs

abbrev pub occurs : ℕ → List Rec → Bool
occurs ip [] = false
occurs ip (r ∷ rs) = r.ip == ip || occurs ip rs

count_old :
    (seen : ℕ → Bool) (a ip : ℕ) (o : Bool) (n : ℕ)
    → seen a ≡ true
    → n ≡ (if seen ip then 0 else if o then 1 else 0)
    → n ≡ (if seen ip then 0 else if (a == ip) || o then 1 else 0)
count_old seen a ip o n h e = elim (Bool-cases (a == ip)) [
  | inl same ↦
      let known : seen ip ≡ true = sym (ap seen (==→eq a ip same)) ∙ h in rw known (rw known at e)
  | inr differ ↦ rw differ e
]

count_new :
    (seen : ℕ → Bool) (a ip : ℕ) (o : Bool) (n : ℕ)
    → seen a ≡ false
    → n ≡ (if mark a seen ip then 0 else if o then 1 else 0)
    → (if a == ip then n + 1 else n) ≡ (if seen ip then 0 else if (a == ip) || o then 1 else 0)
unfolding mark
count_new seen a ip o n h e = elim (Bool-cases (a == ip)) [
  | inl same ↦
      let known : seen ip ≡ false = sym (ap seen (==→eq a ip same)) ∙ h in
      rw (known, same) (ground (arith, e))
  | inr differ ↦ rw differ (ground (arith, e))
]

-- One record, of the address, is written; the bitmap is as it was, and the entries are valid.
abbrev Wrote : ℕ → (ℕ → Bool) → ℕ → List ℕ → Option (List Record × Merging) → Type 0
Wrote ip seen merged counts o =
    (rec : Record) × (m : Merging) × (o ≡ some (rec ∷ [], m))
    × (rec.ip_int ≡ ip)
    × (m.seen ≡ seen)
    × (m.merged ≡ (merged + 1) % 2 ^ 64)
    × ValidEnts m.ents
    × (m.merged_counts ≡ bump_at (code rec.status) counts)

Wrote-if :
    (ip : ℕ) (seen : ℕ → Bool) (merged : ℕ) (counts : List ℕ) (b : Bool)
    (x y : Option (List Record × Merging))
    → (b ≡ true → Wrote ip seen merged counts x)
    → Wrote ip seen merged counts y
    → Wrote ip seen merged counts (if b then x else y)
Wrote-if ip seen merged counts true x y hx hy = hx refl
Wrote-if ip seen merged counts false x y hx hy = hy

-- The fields that the counters do not touch.
abbrev pub Kept : Merging → Merging → Type 0
Kept m m' =
    (m'.seen ≡ m.seen)
    × (m'.merged ≡ m.merged)
    × (m'.ents ≡ m.ents)
    × (m'.merged_counts ≡ m.merged_counts)

pub Kept-if :
    (m : Merging) (b : Bool) (x y : Merging) → Kept m x → Kept m y → Kept m (if b then x else y)
Kept-if m true x y hx hy = hx
Kept-if m false x y hx hy = hy

pub count_names-Kept :
    (arena : Bytes) (r : Rec) (names : List Bytes) (m : Merging)
    → Kept m (count_names arena r names m)
unfolding count_names
count_names-Kept arena r names m =
    Kept-if m (r.status == 0) _ _
      (Kept-if m (hash_names r.ptr == hash_names names) _ _ (refl, refl, refl, refl)
        (refl, refl, refl, refl))
      (refl, refl, refl, refl)

own_code : (c : ℕ) → ltb c 8 ≡ true → code (status_string c) ≡ c
own_code c h = code-status_string c (ltb→lt c 8 h)

write-Wrote :
    (rec : Record) (status : ℕ) (m m' : Merging)
    → ltb status 8 ≡ true
    → code rec.status ≡ status
    → ValidEnts m.ents
    → Kept m m'
    → Wrote rec.ip_int m.seen m.merged m.merged_counts (write rec status m')
unfolding write
write-Wrote rec status m m' h own v (seen, merged, ents, counts) = (
  rec,
  record m' { merged_counts = bump_at status m'.merged_counts; merged = (m'.merged + 1) % 2 ^ 64 },
  rw (h) refl,
  refl,
  seen,
  ap (λ n. (n + 1) % 2 ^ 64) merged,
  subst ValidEnts (sym ents) v,
  ap (bump_at status) counts ∙ ap (λ c. bump_at c m.merged_counts) (sym own),
)

module _ (arena : Bytes) where
  merge_ent-Wrote :
      (r : Rec) (e : Ent) (m : Merging)
      → ltb r.status 8 ≡ true
      → valid_flags e.sf ≡ true
      → ValidEnts m.ents
      → Wrote r.ip m.seen m.merged m.merged_counts (merge_ent arena r e m)
  unfolding merge_ent write_old to_record ent_record
  merge_ent-Wrote r e m hr he v =
      let new : ltb (bit_and e.sf 15) 8 ≡ true = ground arith in
      Wrote-if r.ip m.seen m.merged m.merged_counts (bit_and e.sf 15 == 0) _ _
        (λ zero_code.
          write-Wrote (ent_record r.ip e (ent_names arena e)) 0 m
            (count_names arena r (ent_names arena e) m) refl
            (own_code (bit_and e.sf 15) new ∙ ==→eq (bit_and e.sf 15) 0 zero_code) v
            (count_names-Kept arena r (ent_names arena e) m))
        (Wrote-if r.ip m.seen m.merged m.merged_counts
          (bit_and e.sf 15 == 2 || bit_and e.sf 15 == 1) _ _
          (λ negative.
            write-Wrote (ent_record r.ip e []) (bit_and e.sf 15) m _ new
              (own_code (bit_and e.sf 15) new) v
              (Kept-if m (r.status == 0) _ m (refl, refl, refl, refl) (refl, refl, refl, refl)))
          (Wrote-if r.ip m.seen m.merged m.merged_counts (r.status == 0) _ _
            (λ grace.
              write-Wrote (to_record r) r.status m _ hr (own_code r.status hr) v
                (refl, refl, refl, refl))
            (write-Wrote (ent_record r.ip e []) (bit_and e.sf 15) m m new
              (own_code (bit_and e.sf 15) new) v (refl, refl, refl, refl))))

  merge_found-Wrote :
      (r : Rec) (o : Option (ℕ × Ent)) (m : Merging)
      → ltb r.status 8 ≡ true
      → ((i : ℕ) (e : Ent) → o ≡ some (i, e) → valid_flags e.sf ≡ true)
      → ValidEnts m.ents
      → Wrote r.ip m.seen m.merged m.merged_counts (merge_found arena r o m)
  unfolding merge_found write_old to_record
  merge_found-Wrote r none m hr he v =
      write-Wrote (to_record r) r.status m _ hr (own_code r.status hr) v (refl, refl, refl, refl)
  merge_found-Wrote r (some (i, e)) m hr he v =
      merge_ent-Wrote r (record e { sf = bit_or e.sf 128 }) (record m { ents = set_used i m.ents })
        hr (used_valid e.sf (he i e refl)) (set_used-ValidEnts i m.ents v)

  merge_new-Wrote :
      (mask : ℕ) (r : Rec) (m : Merging)
      → ltb r.status 8 ≡ true
      → ValidEnts m.ents
      → Wrote r.ip m.seen m.merged m.merged_counts (merge_new arena mask r m)
  unfolding merge_new write_old to_record
  merge_new-Wrote mask r m hr v =
      Wrote-if r.ip m.seen m.merged m.merged_counts (has mask r.status) _ _
        (λ target.
          merge_found-Wrote r (find m.ents r.ip) m hr (λ i e got. find-valid m.ents r.ip i e v got)
            v)
        (write-Wrote (to_record r) r.status m m hr (own_code r.status hr) v
          (refl, refl, refl, refl))

  -- The records of the baseline with a code each, against a table of such entries.
  abbrev pub Merges : ℕ → List Rec → Merging → Type 0
  Merges mask rs m =
      (out : List Record) × (last : Merging) × (merge_records arena mask rs m ≡ some (out, last))
      × ((ip : ℕ) → written_at ip out ≡ (if m.seen ip then 0 else if occurs ip rs then 1 else 0))
      × (last.merged ≡ (m.merged + length out) % 2 ^ 64)
      × (last.merged_counts ≡ tallied m.merged_counts out)

  merge_records-Merges :
      (mask : ℕ) (rs : List Rec) (m : Merging)
      → ValidRecs rs
      → ValidEnts m.ents
      → m.merged < 2 ^ 64
      → Merges mask rs m
  unfolding merge_records merge_record
  merge_records-Merges mask [] m hr v small = ([], m, refl, λ ip. ground arith, omega arith, refl)
  merge_records-Merges mask (r ∷ rs) m hr v small = elim (Bool-cases (m.seen r.ip)) [
    | inl old ↦
        let (out, last, run, once, count, histogram) =
          merge_records-Merges mask rs (record m { old_dups = (m.old_dups + 1) % 2 ^ 64 }) hr.1 v
            small in
        (
          out,
          last,
          rw (old, merge_records, merge_record, run) refl,
          λ ip. count_old m.seen r.ip ip (occurs ip rs) (written_at ip out) old (once ip),
          count,
          histogram,
        )
    | inr new ↦
        let next = record m { seen = mark r.ip m.seen; old_total = (m.old_total + 1) % 2 ^ 64 } in
        let (rec, m', wrote, own, seen, merged, valid, counted) =
          merge_new-Wrote mask r next hr.0 v in
        let (out, last, run, once, count, histogram) =
          merge_records-Merges mask rs m' hr.1 valid (omega (arith, merged)) in
        (
          rec ∷ out,
          last,
          rw (new, merge_records, merge_record, wrote, run) refl,
          λ ip. rw own (
              count_new m.seen r.ip ip (occurs ip rs) (written_at ip out) new
                (once ip ∙ ap (λ f. if f ip then 0 else if occurs ip rs then 1 else 0) seen)),
          omega (arith, count, merged),
          histogram ∙ ap (λ a. tallied a out) counted,
        )
  ]

-- For a baseline and a re-crawl table whose records have one of the eight status codes, and a
-- cleared bitmap: the loop of `mergeShard` does not panic, it writes exactly one record for every
-- address of the baseline, however often it occurs there, and none for another address; and
-- `Merged` counts the records written, modulo 2 ^ 64, and `mergedCounts` their statuses.
pub merge_records_lem :
    (arena : Bytes) (mask : ℕ) (rs : List Rec) (m : Merging)
    → ValidRecs rs
    → ValidEnts m.ents
    → ((ip : ℕ) → m.seen ip ≡ false)
    → m.merged ≡ 0
    → (out : List Record) × (last : Merging) × (merge_records arena mask rs m ≡ some (out, last))
      × ((ip : ℕ) → written_at ip out ≡ (if occurs ip rs then 1 else 0))
      × (last.merged ≡ length out % 2 ^ 64)
      × (last.merged_counts ≡ tallied m.merged_counts out)
merge_records_lem arena mask rs m hr v cleared start =
    let (out, last, run, once, count, histogram) =
      merge_records-Merges arena mask rs m hr v (omega (arith, start)) in
    (out, last, run, λ ip. rw (cleared ip) at (once ip), omega (arith, count, start), histogram)
