-- ===== src/Merge/Refines.antt =====
-- internal/merge/merge.go: the loop of `mergeShard` against the choice between two records.
use r_dns_crawler.Base.{
  ℕ, ◌+◌, ◌%◌, ◌^◌, ◌≡◌, refl, sym, ap, subst, ◌∙◌, bit_or, Bool, true, false, ◌||◌, List, [], ◌∷◌,
  Option, some, none, Bytes, ltb, ◌==◌, if◌then◌else◌, All, Bool-cases, Option-cases, ==→eq, inl,
  inr,
}
use r_dns_crawler.Base.Results.{ok}
use r_dns_crawler.Model.Record.{Record}
use r_dns_crawler.Model.Mask.{has}
use r_dns_crawler.Store.Block.{Rec, Outcome}
use r_dns_crawler.Merge.Load.{Ent, Loaded, ent_names, load_new_shard}
use r_dns_crawler.Merge.Table.Described.{
  IsObservation, Describes, Tracks, used-Describes, Matches-set_used, set_used-Ascending,
}
use r_dns_crawler.Merge.Table.Loaded.{load_new_shard-Tracks}
use r_dns_crawler.Base.Keyed.Laws.Search.{find_by_lem}
use r_dns_crawler.Base.{some_injective}
use r_dns_crawler.Merge.Shard.Total.{Kept, Kept-if, count_names-Kept}
use r_dns_crawler.Base.Counters.{bump_at}
use r_dns_crawler.Merge.Spec.{observation, settle, choose, firsts, merged}
use r_dns_crawler.Merge.Shard.{
  Merging, to_record, ent_record, find, set_used, mark, write, write_old, count_names, merge_ent,
  merge_found, merge_new, merge_record, merge_records,
}

observation-ip : (ip : ℕ) (rs : List Rec) (r : Rec) → observation ip rs ≡ some r → r.ip ≡ ip
observation-ip ip [] r h = cc
observation-ip ip (d ∷ rs) r h = elim (Bool-cases (d.ip == ip)) [
  | inl same ↦
      let eq : d ≡ r = some_injective (rw same at h) in sym (ap (λ x. x.ip) eq) ∙ ==→eq d.ip ip same
  | inr differ ↦ observation-ip ip rs r (rw differ at h)
]

abbrev Chose : Bytes → List Rec → Record → (ℕ → Bool) → Option (List Record × Merging) → Type 0
Chose arena news rec seen o =
    (m : Merging) × (o ≡ some (rec ∷ [], m)) × (m.seen ≡ seen) × Tracks arena news m.ents

module _ (arena : Bytes) (news : List Rec) where
  write-Chose :
      (rec rec' : Record) (status : ℕ) (m m' : Merging) (o : Option (List Record × Merging))
      → o ≡ write rec' status m'
      → rec' ≡ rec
      → ltb status 8 ≡ true
      → Tracks arena news m.ents
      → Kept m m'
      → Chose arena news rec m.seen o
  unfolding write
  write-Chose rec rec' status m m' o run same low v kept = (
    record m' {
      merged_counts = bump_at status m'.merged_counts;
      merged = (m'.merged + 1) % 2 ^ 64;
    },
    run ∙ rw (low, same) refl,
    kept.0,
    subst (Tracks arena news) (sym kept.2) v,
  )

  merge_ent-Chose :
      (r new : Rec) (e : Ent) (m : Merging)
      → ltb r.status 8 ≡ true
      → Tracks arena news m.ents
      → r.ip ≡ new.ip
      → Describes arena e new
      → Chose arena news (to_record (settle r new)) m.seen (merge_ent arena r e m)
  unfolding merge_ent write_old
  merge_ent-Chose r new e m low v ip (e_ip, small, status, new_low, same) =
      elim (Bool-cases (new.status == 0)) [
        | inl named ↦
            write-Chose _ (ent_record r.ip e (ent_names arena e)) 0 m
              (count_names arena r (ent_names arena e) m) _ (rw (status, named, merge_ent) refl)
              (ap (λ a. ent_record a e (ent_names arena e)) ip ∙ rw named at same ∙ rw named refl)
              refl v (count_names-Kept arena r (ent_names arena e) m)
        | inr unnamed ↦
            let plain : ent_record r.ip e [] ≡ to_record new =
              ap (λ a. ent_record a e []) ip ∙ rw unnamed at same in
            elim (Bool-cases (new.status == 2 || new.status == 1)) [
              | inl negative ↦
                  write-Chose _ (ent_record r.ip e []) new.status m
                    (if r.status == 0
                      then record m { removed_auth = (m.removed_auth + 1) % 2 ^ 64 }
                      else m)
                    _ (rw (status, unnamed, negative, merge_ent) refl)
                    (plain ∙ rw (unnamed, negative) refl) new_low v
                    (Kept-if m (r.status == 0) _ m (refl, refl, refl, refl)
                      (refl, refl, refl, refl))
              | inr transient ↦ elim (Bool-cases (r.status == 0)) [
                | inl known ↦
                    write-Chose _ (to_record r) r.status m
                      (record m { grace_kept = (m.grace_kept + 1) % 2 ^ 64 }) _
                      (rw (status, unnamed, transient, known, merge_ent) refl)
                      (rw (unnamed, transient, known) refl) low v (refl, refl, refl, refl)
                | inr unknown ↦
                    write-Chose _ (ent_record r.ip e []) new.status m m _
                      (rw (status, unnamed, transient, unknown, merge_ent) refl)
                      (plain ∙ rw (unnamed, transient, unknown) refl) new_low v
                      (refl, refl, refl, refl)
              ]
            ]
      ]

  merge_found-Chose :
      (mask : ℕ) (r : Rec) (m : Merging)
      → ltb r.status 8 ≡ true
      → Tracks arena news m.ents
      → has mask r.status ≡ true
      → Chose arena news
          (to_record (choose mask (observation r.ip news) r))
          m.seen
          (merge_found arena r (find m.ents r.ip) m)
  unfolding merge_found write_old find
  merge_found-Chose mask r m low v target = elim (find_by_lem (λ e. e.ip) m.ents r.ip v.0) [
    | inl (missing, no_ent) ↦ elim (Option-cases (observation r.ip news)) [
      | inl nothing ↦
          rw (missing, merge_found, nothing)
            (write-Chose _ (to_record r) r.status m
              (record m { missing_kept = (m.missing_kept + 1) % 2 ^ 64 }) _ refl refl low v
              (refl, refl, refl, refl))
      | inr (new, got) ↦ absurd (rw (no_ent, got) at (v.1 r.ip))
    ]
    | inr (i, e, found, at_i, first) ↦ elim (Option-cases (observation r.ip news)) [
      | inl nothing ↦ absurd (rw (first, nothing) at (v.1 r.ip))
      | inr (new, got) ↦
          let described : Describes arena e new = rw (first, got) at (v.1 r.ip) in
          rw (found, merge_found, got, target)
            (merge_ent-Chose r new (record e { sf = bit_or e.sf 128 })
              (record m { ents = set_used i m.ents }) low
              (set_used-Ascending i m.ents v.0, λ ip. Matches-set_used arena ip i m.ents _ (v.1 ip))
              (sym (observation-ip r.ip news new got)) (used-Describes arena e new described))
    ]
  ]

  merge_new-Chose :
      (mask : ℕ) (r : Rec) (m : Merging)
      → ltb r.status 8 ≡ true
      → Tracks arena news m.ents
      → Chose arena news
          (to_record (choose mask (observation r.ip news) r))
          m.seen
          (merge_new arena mask r m)
  unfolding merge_new write_old
  merge_new-Chose mask r m low v = elim (Bool-cases (has mask r.status)) [
    | inl target ↦ rw (target, merge_new) (merge_found-Chose mask r m low v target)
    | inr other ↦
        write-Chose _ (to_record r) r.status m m _ (rw (other, merge_new) refl)
          (kept (observation r.ip news) other) low v (refl, refl, refl, refl)
  ]
    where
      kept :
          (o : Option Rec) → has mask r.status ≡ false → to_record r ≡ to_record (choose mask o r)
      kept none h = refl
      kept (some n) h = rw h

  merge_records-merged :
      (mask : ℕ) (olds : List Rec) (m : Merging)
      → All (λ r. ltb r.status 8 ≡ true) olds
      → Tracks arena news m.ents
      → (last : Merging) × (merge_records arena mask olds m
          ≡ some (merged mask news m.seen olds, last))
  unfolding merge_records merge_record
  merge_records-merged mask [] m low v = (m, refl)
  merge_records-merged mask (r ∷ rs) m low v = elim (Bool-cases (m.seen r.ip)) [
    | inl old ↦
        let (last, run) =
          merge_records-merged mask rs (record m { old_dups = (m.old_dups + 1) % 2 ^ 64 }) low.1
            v in
        (last, rw (old, merge_records, merge_record, run, firsts) refl)
    | inr fresh ↦
        let next = record m { seen = mark r.ip m.seen; old_total = (m.old_total + 1) % 2 ^ 64 } in
        let (m', wrote, seen, v') = merge_new-Chose mask r next low.0 v in
        let (last, run) = merge_records-merged mask rs m' low.1 v' in
        (last, rw (fresh, merge_records, merge_record, wrote, run, seen, firsts) refl)
  ]

-- A file of observations that loads, whole or cut off at its end, and a baseline with one of the
-- eight codes in each record: the loop of `mergeShard` does not panic on the table, and it writes
-- the merged records of the two files: for the first record of each address that the bitmap has
-- not, the record that the update policy chooses between it and the first observation of the
-- address in the new file.
pub load_new_shard-merged :
    (news : List Rec) (end : Outcome) (l : Loaded) (mask : ℕ) (olds : List Rec) (m : Merging)
    → All IsObservation news
    → load_new_shard (news, end) ≡ ok l
    → All (λ r. ltb r.status 8 ≡ true) olds
    → m.ents ≡ l.ents
    → (last : Merging) × (merge_records l.arena mask olds m
        ≡ some (merged mask news m.seen olds, last))
load_new_shard-merged news end l mask olds m v h low same =
    merge_records-merged l.arena news mask olds m low
      (rw same (load_new_shard-Tracks news end l v h))
