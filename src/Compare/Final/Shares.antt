-- ===== src/Compare/Final/Shares.antt =====
-- internal/compare/compare.go: the parts of the has_ptr targets that `finalize` turns into percentages.
use r_dns_crawler.Base.{
  ℕ, bit_or, ◌+◌, ◌%◌, ◌^◌, ◌<◌, ◌≡◌, refl, sym, ap, subst, ◌∙◌, ◌&&◌, List, [], ◌∷◌, Option, some,
  none, ltb, ◌==◌, if◌then◌else◌, Option-cases, arith, Bool-cases, inl, inr,
}
use r_dns_crawler.Base.Keyed.{find_by}
use r_dns_crawler.Store.Block.{Rec}
use r_dns_crawler.Compare.Load.{OldEnt}
use r_dns_crawler.Compare.Join.{
  Joining, bit, set_seen, bump_cell, count_kept, count_gained, count_answer, join_found,
  join_record, join_records, count_missing,
}
use r_dns_crawler.Compare.Join.Cells.{cell, IsMatrix, bump_cell_lem}
use r_dns_crawler.Compare.Join.Laws.{Small}

-- The names that stayed or changed are counted as often as the transition from has_ptr to has_ptr.
pub record IsBalanced (s : Joining) : Type 0 where
  pub shape : IsMatrix s.matrix
  pub small : Small s.matrix
  pub balance : (s.ptr_unchanged + s.ptr_changed) % 2 ^ 64 ≡ cell 0 0 s.matrix

count_kept_lem :
    (e : OldEnt) (r : Rec) (s : Joining)
    → ((count_kept e r s).matrix ≡ s.matrix)
      × (((count_kept e r s).ptr_unchanged + (count_kept e r s).ptr_changed) % 2 ^ 64
          ≡ (s.ptr_unchanged + s.ptr_changed + 1) % 2 ^ 64)
unfolding count_kept
count_kept_lem e r s = ground arith

count_answer_lem :
    (e : OldEnt) (r : Rec) (s : Joining)
    → ((count_answer e r s).matrix ≡ s.matrix)
      × (((count_answer e r s).ptr_unchanged + (count_answer e r s).ptr_changed) % 2 ^ 64
          ≡ (s.ptr_unchanged
              + s.ptr_changed
              + (if (e.status == 0) && (r.status == 0) then 1 else 0))
            % 2 ^ 64)
unfolding count_answer count_gained
count_answer_lem e r s = ground (arith, count_kept_lem e r s)

-- A counted transition from has_ptr to has_ptr is one more there, and another is none.
pub bumped :
    (i j : ℕ) (m : List (List ℕ)) {m' : List (List ℕ)}
    → IsMatrix m
    → Small m
    → bump_cell i j m ≡ some m'
    → IsMatrix m'
      × Small m'
      × (cell 0 0 m' ≡ (cell 0 0 m + (if (i == 0) && (j == 0) then 1 else 0)) % 2 ^ 64)
unfolding bump_cell
bumped i j m {m'} shape small h = elim (Bool-cases (ltb i 8 && ltb j 9)) [
  | inr outside ↦ absurd (cc (rw outside at h))
  | inl inside ↦
      let rows : i < 8 = ground arith in
      let cols : j < 9 = ground arith in
      let (m'', made, shape', cells) = bump_cell_lem i j m rows cols shape in
      let same : m'' ≡ m' = cc in
      (
        subst IsMatrix same shape',
        λ a b. ground (arith, small a b, cells a b, same),
        ground (arith, small 0 0, cells 0 0, same),
      )
]

some_injective : {A : Type 0} {a b : A} → some a ≡ some b → a ≡ b
some_injective h = cc

join_found-IsBalanced :
    (r : Rec) (o : Option (ℕ × OldEnt)) (s : Joining) {s' : Joining}
    → IsBalanced s
    → join_found r o s ≡ some s'
    → IsBalanced s'
unfolding join_found
join_found-IsBalanced r none s v h =
    subst IsBalanced (some_injective h)
      (record { shape = v.shape; small = v.small; balance = v.balance })
join_found-IsBalanced r (some (i, e)) s {s'} v h = elim (Bool-cases (bit e.flags 4)) [
  | inl seen ↦
      subst IsBalanced (some_injective (rw seen at h))
        (record { shape = v.shape; small = v.small; balance = v.balance })
  | inr first ↦ counted (bump_cell e.status r.status s.matrix) refl (rw first at h)
]
  where
    counted :
        (o : Option (List (List ℕ)))
        → bump_cell e.status r.status s.matrix ≡ o
        → (elim o as (λ x. Option Joining) [
          | none ↦ none
          | some matrix ↦ some (
              count_answer
                (record e { flags = bit_or e.flags 4 })
                r
                (record s { ents = set_seen i s.ents; matrix = matrix }))
        ])
          ≡ some s'
        → IsBalanced s'
    counted none b g = absurd (cc)
    counted (some m) b g =
        let (shape, small, grown) = bumped e.status r.status s.matrix v.shape v.small b in
        let e' = record e { flags = bit_or e.flags 4 } in
        let s1 = record s { ents = set_seen i s.ents; matrix = m } in
        let (same, sums) = count_answer_lem e' r s1 in
        subst IsBalanced (some_injective g) (record {
          shape = subst IsMatrix (sym same) shape;
          small = subst Small (sym same) small;
          balance = omega (arith, sums, v.balance, grown, ap (cell 0 0) same);
        })

join_record-IsBalanced :
    (r : Rec) (s : Joining) {s' : Joining}
    → IsBalanced s
    → join_record r s ≡ some s'
    → IsBalanced s'
unfolding join_record
join_record-IsBalanced r s v h = join_found-IsBalanced r (find_by (λ e. e.ip) s.ents r.ip) s v h

pub join_records-IsBalanced :
    (rs : List Rec) (s : Joining) {s' : Joining}
    → IsBalanced s
    → join_records rs s ≡ some s'
    → IsBalanced s'
unfolding join_records
join_records-IsBalanced [] s v h = subst IsBalanced (some_injective h) v
join_records-IsBalanced (r ∷ rs) s v h = elim (Option-cases (join_record r s)) [
  | inl stopped ↦ absurd (cc (rw (stopped, join_records) at h))
  | inr (s1, went) ↦
      join_records-IsBalanced rs s1 (join_record-IsBalanced r s v went)
        (rw (went, join_records) at h)
]

pub count_missing-IsBalanced :
    (es : List OldEnt) (m : List (List ℕ)) {m' : List (List ℕ)}
    → IsMatrix m
    → Small m
    → count_missing es m ≡ some m'
    → IsMatrix m' × Small m' × (cell 0 0 m' ≡ cell 0 0 m)
unfolding count_missing
count_missing-IsBalanced [] m shape small h =
    let same = some_injective h in
    (subst IsMatrix same shape, subst Small same small, ap (cell 0 0) (sym same))
count_missing-IsBalanced (e ∷ es) m shape small h = elim (Bool-cases (bit e.flags 4)) [
  | inl seen ↦ count_missing-IsBalanced es m shape small (rw (seen, count_missing) at h)
  | inr missing ↦ elim (Option-cases (bump_cell e.status 8 m)) [
    | inl stopped ↦ absurd (cc (rw (missing, count_missing, stopped) at h))
    | inr (m1, went) ↦
        let (shape1, small1, same1) = bumped e.status 8 m shape small went in
        let (shape2, small2, same2) =
          count_missing-IsBalanced es m1 shape1 small1 (rw (missing, count_missing, went) at h) in
        (shape2, small2, same2 ∙ ground (arith, same1, small 0 0))
  ]
]
