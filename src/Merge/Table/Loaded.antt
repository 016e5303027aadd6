-- ===== src/Merge/Table/Loaded.antt =====
-- internal/merge/merge.go, `loadNewShard`: the entries and their names in the arena.
use r_dns_crawler.Base.{
  ℕ, ◌+◌, ◌≡◌, ◌≢◌, refl, sym, ap, subst, ◌∙◌, bit_and, bit_or, Bool, true, false, ◌&&◌, List, [],
  ◌∷◌, ◌++◌, none, Bytes, length, take, drop, join, ltb, ◌==◌, if◌then◌else◌, arith, All, Lacks,
  split, split-join, Bool-cases, ==→eq, ==→ne, ltb→lt, inl, inr, take_of_append, drop_of_append,
  append-nil, append_assoc, not,
}
use r_dns_crawler.Base.Results.{ok, ok_injective, Result-cases}
use r_dns_crawler.Base.Tables.{all_below, all_below→holds}
use r_dns_crawler.Store.Block.{Rec, Outcome, finished, failed, truncated_tail}
use r_dns_crawler.Merge.Load.{
  Ent, Loaded, ent_flags, ent_names, load_record, load_records, load_new_shard, load_end, table,
}
use r_dns_crawler.Merge.Table.{first_ent, first_ent-table, table-Ascending}
use r_dns_crawler.Merge.Table.Described.{IsObservation, Describes, Matches, Tracks}
use r_dns_crawler.Merge.Spec.{observation}
use r_dns_crawler.Merge.Shard.{to_record, ent_record}

-- The entry that `load_record` makes, in the arena behind it and however that grows.
flags_ok : Bool → Bool → ℕ → Bool
flags_ok c m s =
    let f =
      (if c
        then (if m then bit_or (bit_or (bit_and s 15) 16) 32 else bit_or (bit_and s 15) 16)
        else bit_and s 15) in
    ltb f 256
    && (bit_and f 15 == s)
    && (if c
        then not (bit_and f 16 == 0) && (if m then not (bit_and f 32 == 0) else bit_and f 32 == 0)
        else bit_and f 16 == 0)

flags_table : (c m : Bool) → all_below 8 (flags_ok c m) ≡ true
unfolding all_below flags_ok
flags_table true true = refl
flags_table true false = refl
flags_table false true = refl
flags_table false false = refl

-- A record of the crawler from its fields.
abbrev rec_of : (ip s : ℕ) → List Bytes → (c m : Bool) → Rec
rec_of ip s ptr c m = record { ip = ip; status = s; ptr = ptr; fc_checked = c; fc_match = m }

ent_flags-Describes :
    (arena : Bytes) (ip s : ℕ) (ptr : List Bytes) (c m : Bool) (off len : ℕ)
    → ltb s 8 ≡ true
    → ptr ≡ (if s == 0 then split (take len (drop off arena)) 0 else [])
    → Describes arena
        (record { ip = ip; sf = ent_flags (rec_of ip s ptr c m); name_off = off; name_len = len })
        (rec_of ip s ptr c m)
unfolding ent_record to_record ent_flags ent_names flags_ok
ent_flags-Describes arena ip s ptr true true off len low names =
    let t = all_below→holds 8 (flags_ok true true) (flags_table true true) s (ltb→lt s 8 low) in
    ground arith
ent_flags-Describes arena ip s ptr true false off len low names =
    let t = all_below→holds 8 (flags_ok true false) (flags_table true false) s (ltb→lt s 8 low) in
    ground arith
ent_flags-Describes arena ip s ptr false true off len low names =
    let t = all_below→holds 8 (flags_ok false true) (flags_table false true) s (ltb→lt s 8 low) in
    ground arith
ent_flags-Describes arena ip s ptr false false off len low names =
    let t = all_below→holds 8 (flags_ok false false) (flags_table false false) s (ltb→lt s 8 low) in
    ground arith

split-join_some :
    (ptr : List Bytes) → ptr ≢ [] → All (Lacks 0) ptr → split (join ptr (0 ∷ [])) 0 ≡ ptr
split-join_some [] ne plain = absurd (ne refl)
split-join_some (p ∷ ps) ne plain = split-join p ps 0 plain

slice_lem :
    (arena joined tail : Bytes)
    → take (length joined) (drop (length arena) ((arena ++ joined) ++ tail)) ≡ joined
slice_lem arena joined tail =
    rw (append_assoc, drop_of_append arena (joined ++ tail)) (take_of_append joined tail)

load_record-Describes :
    (arena tail : Bytes) (r : Rec) (e : Ent) (arena' : Bytes)
    → IsObservation r
    → load_record arena r ≡ ok (e, arena')
    → ((t : Bytes) × (arena' ≡ arena ++ t)) × Describes (arena' ++ tail) e r
unfolding load_record
load_record-Describes arena tail r e arena' (low, some_name, no_names, plain) h =
    elim (Bool-cases (r.status == 0)) [
      | inl named ↦ elim (Bool-cases (ltb 4294967295 (length arena + length joined))) [
        | inl full ↦ absurd (cc (rw (named, full, load_record) at h))
        | inr fits ↦
            let loaded : (
              record {
                ip = r.ip;
                sf = ent_flags r;
                name_off = length arena;
                name_len = length joined;
              },
              arena ++ joined,
            )
                ≡ (e, arena') =
              ok_injective (rw (named, fits, load_record) at h) in
            (
              (joined, sym (ap (λ x. x.1) loaded)),
              subst (λ x. Describes (x.1 ++ tail) x.0 r) loaded
                  (ent_flags-Describes ((arena ++ joined) ++ tail) r.ip r.status r.ptr r.fc_checked
                    r.fc_match (length arena) (length joined) low
                    (rw (named, slice_lem arena joined tail)
                      (sym (split-join_some r.ptr (some_name (==→eq r.status 0 named)) plain)))),
            )
      ]
      | inr unnamed ↦
          let loaded : (record { ip = r.ip; sf = ent_flags r; name_off = 0; name_len = 0 }, arena)
              ≡ (e, arena') =
            ok_injective (rw (unnamed, load_record) at h) in
          (
            ([], sym (append-nil arena ∙ ap (λ x. x.1) loaded)),
            subst (λ x. Describes (x.1 ++ tail) x.0 r) loaded
                (ent_flags-Describes (arena ++ tail) r.ip r.status r.ptr r.fc_checked r.fc_match 0 0
                  low (rw unnamed (no_names (==→ne r.status 0 unnamed)))),
          )
    ]
  where
    joined : Bytes
    joined = join r.ptr (0 ∷ [])

-- The whole file: the first entry of each address describes the first record of it, and the arena
-- only grows.
load_records-Matches :
    (arena : Bytes) (rs : List Rec) (es : List Ent) (last : Bytes)
    → All IsObservation rs
    → load_records arena rs ≡ ok (es, last)
    → ((t : Bytes) × (last ≡ arena ++ t))
      × ((ip : ℕ) → Matches last (first_ent ip es) (observation ip rs))
unfolding load_records
load_records-Matches arena [] es last v h =
    let loaded : ([], arena) ≡ (es, last) = ok_injective h in
    (
      ([], sym (append-nil arena ∙ ap (λ x. x.1) loaded)),
      λ ip. subst (λ x. Matches last (first_ent ip x.0) none) loaded tt,
    )
load_records-Matches arena (r ∷ rs) es last v h = elim (Result-cases (load_record arena r)) [
  | inr (x, refused) ↦ absurd (cc (rw (refused, load_records) at h))
  | inl ((e, arena'), one) ↦ elim (Result-cases (load_records arena' rs)) [
    | inr (x, refused) ↦ absurd (cc (rw (one, load_records, refused) at h))
    | inl ((es', arena''), more) ↦
        let loaded : (e ∷ es', arena'') ≡ (es, last) =
          ok_injective (rw (one, load_records, more) at h) in
        let ((t, grown), rest) = load_records-Matches arena' rs es' arena'' v.1 more in
        let ((t', first), described) = load_record-Describes arena t r e arena' v.0 one in
        (
          (
            t' ++ t,
            sym (ap (λ x. x.1) loaded) ∙ grown ∙ ap (λ a. a ++ t) first ∙ append_assoc arena t' t,
          ),
          λ ip.
              subst (λ x. Matches x.1 (first_ent ip x.0) (observation ip (r ∷ rs))) loaded
                (Matches-head arena'' ip e r es' rs
                  (subst (λ a. Describes a e r) (sym grown) described) (rest ip)),
        )
  ]
]
  where
    Matches-head :
        (a : Bytes) (ip : ℕ) (e : Ent) (r : Rec) (es : List Ent) (rs : List Rec)
        → Describes a e r
        → Matches a (first_ent ip es) (observation ip rs)
        → Matches a (first_ent ip (e ∷ es)) (observation ip (r ∷ rs))
    Matches-head a ip e r es rs d rest = elim (Bool-cases (r.ip == ip)) [
      | inl same ↦ let hit : (e.ip == ip) ≡ true = ap (λ x. x == ip) d.0 ∙ same in rw (hit, same) d
      | inr differ ↦
          let miss : (e.ip == ip) ≡ false = ap (λ x. x == ip) d.0 ∙ differ in rw (miss, differ) rest
    ]

pub load_new_shard-Tracks :
    (news : List Rec) (end : Outcome) (l : Loaded)
    → All IsObservation news
    → load_new_shard (news, end) ≡ ok l
    → Tracks l.arena news l.ents
unfolding load_new_shard
load_new_shard-Tracks news end l v h = elim (Result-cases (load_records [] news)) [
  | inr (x, refused) ↦ absurd (cc (rw (refused, load_new_shard) at h))
  | inl (loaded, run) ↦ load_end-Tracks end loaded run (rw (run, load_new_shard) at h)
]
  where
    table-Tracks :
        (b : Bool) (loaded : List Ent × Bytes)
        → load_records [] news ≡ ok loaded
        → Tracks (table b loaded).arena news (table b loaded).ents
    table-Tracks b (es, arena) run =
        let (grown, described) = load_records-Matches [] news es arena v run in
        unfold table in (table-Ascending es, λ ip. rw (first_ent-table ip es) (described ip))

    load_end-Tracks :
        (end : Outcome) (loaded : List Ent × Bytes)
        → load_records [] news ≡ ok loaded
        → load_end end loaded ≡ ok l
        → Tracks l.arena news l.ents
    load_end-Tracks finished loaded run h =
        subst (λ x. Tracks x.arena news x.ents) (ok_injective (unfold load_end in h))
          (table-Tracks false loaded run)
    load_end-Tracks (failed truncated_tail) loaded run h =
        subst (λ x. Tracks x.arena news x.ents) (ok_injective (unfold load_end in h))
          (table-Tracks true loaded run)
    load_end-Tracks x loaded run h = absurd (unfold load_end in cc h)
