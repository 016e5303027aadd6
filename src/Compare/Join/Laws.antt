-- ===== src/Compare/Join/Laws.antt =====
-- internal/compare/compare.go: `joinNewPass` and the loop behind it, over a whole shard.
use r_dns_crawler.Base.{
  ℕ, zero, suc, ◌+◌, ◌%◌, ◌^◌, ◌<◌, ◌≡◌, refl, sym, ap, ◌∙◌, Bool, true, false, ◌&&◌, List, [], ◌∷◌,
  Option, some, some_injective, bit_or, get_elem?, ltb, ◌==◌, if◌then◌else◌, arith, All, Bool-cases,
  ltb→lt, inl, inr, subst,
}
use r_dns_crawler.Merge.Names.{hash_names}
use r_dns_crawler.Model.Status.{code_has_ptr}
use r_dns_crawler.Base.Keyed.Laws.{first_of-key}
use r_dns_crawler.Base.Keyed.Laws.Search.{find_by_lem}
use r_dns_crawler.Store.Block.{Rec}
use r_dns_crawler.Compare.Load.{OldEnt}
use r_dns_crawler.Compare.Join.{
  Joining, missing_col, count_answer, count_kept, count_gained, set_seen, join_found, join_record,
  join_records, count_missing, up, bit,
}
use r_dns_crawler.Compare.Join.Cells.{cell, IsMatrix, bump_cell_lem}
use r_dns_crawler.Compare.Join.Counted.{
  moving, IsTarget, AreTargets, moving_other, moving_found, moving_again, seen_lem,
}

set_seen-Above :
    (k i : ℕ) (es : List OldEnt) → All (λ d. k < d.ip) es → All (λ d. k < d.ip) (set_seen i es)
unfolding set_seen
set_seen-Above k i [] h = h
set_seen-Above k zero (e ∷ es) h = h
set_seen-Above k (suc i) (e ∷ es) h = (h.0, set_seen-Above k i es h.1)

set_seen-AreTargets : (i : ℕ) (es : List OldEnt) → AreTargets es → AreTargets (set_seen i es)
unfolding set_seen
set_seen-AreTargets i [] v = v
set_seen-AreTargets zero (e ∷ es) v = (v.0, (((seen_lem e.flags v.1.0.0).1, v.1.0.1), v.1.1))
set_seen-AreTargets (suc i) (e ∷ es) v =
    let (up, targets) = set_seen-AreTargets i es (v.0.1, v.1.1) in
    ((set_seen-Above e.ip i es v.0.0, up), (v.1.0, targets))

-- The counters of the names leave the table and the matrix as they are.
abbrev Kept : Joining → Joining → Type 0
Kept s s' = (s'.ents ≡ s.ents) × (s'.matrix ≡ s.matrix)

Kept-if :
    (s : Joining) (b : Bool) (x y : Joining) → Kept s x → Kept s y → Kept s (if b then x else y)
Kept-if s true x y hx hy = hx
Kept-if s false x y hx hy = hy

count_answer-Kept : (e : OldEnt) (r : Rec) (s : Joining) → Kept s (count_answer e r s)
unfolding count_answer count_kept count_gained
count_answer-Kept e r s =
    Kept-if s (r.status == code_has_ptr) _ s
      (Kept-if s (e.status == code_has_ptr) _ _ kept (refl, refl)) (refl, refl)
  where
    counted : Joining
    counted =
        if e.hash == hash_names r.ptr
        then record s { ptr_unchanged = up s.ptr_unchanged }
        else record s { ptr_changed = up s.ptr_changed }

    same : Kept s counted
    same = Kept-if s (e.hash == hash_names r.ptr) _ _ (refl, refl) (refl, refl)

    kept : Kept s (count_kept e r s)
    kept = Kept-if s (bit e.flags 1 && r.fc_checked) _ counted same same

IsTarget-get :
    (es : List OldEnt) (i : ℕ) (e : OldEnt) → All IsTarget es → get_elem? es i ≡ some e → IsTarget e
IsTarget-get [] i e v h = absurd (cc)
IsTarget-get (d ∷ es) zero e v h = subst IsTarget (some_injective h) v.0
IsTarget-get (d ∷ es) (suc i) e v h = IsTarget-get es i e v.1 h

count_step :
    (b : Bool) (c n : ℕ)
    → ((if b then (c + 1) % 2 ^ 64 else c) + n) % 2 ^ 64 ≡ (c + (if b then n + 1 else n)) % 2 ^ 64
count_step true c n = omega arith
count_step false c n = refl

cell_lt : (b : Bool) (c : ℕ) → c < 2 ^ 64 → (if b then (c + 1) % 2 ^ 64 else c) < 2 ^ 64
cell_lt true c h = omega arith
cell_lt false c h = h

-- The counters of the matrix are uint64.
abbrev pub Small : List (List ℕ) → Type 0
Small m = (a b : ℕ) → cell a b m < 2 ^ 64

-- What one record does: a step of the join that the count follows.
abbrev Joined : Rec → List Rec → Joining → Option Joining → Type 0
Joined r news s o =
    (s' : Joining) × (o ≡ some s')
    × AreTargets s'.ents
    × IsMatrix s'.matrix
    × Small s'.matrix
    × ((a b : ℕ)
        → (cell a b s'.matrix + moving a b news s'.ents) % 2 ^ 64
          ≡ (cell a b s.matrix + moving a b (r ∷ news) s.ents) % 2 ^ 64)

join_record-Joined :
    (r : Rec) (news : List Rec) (s : Joining)
    → ltb r.status 9 ≡ true
    → AreTargets s.ents
    → IsMatrix s.matrix
    → Small s.matrix
    → Joined r news s (join_record r s)
unfolding join_record join_found
join_record-Joined r news s low v shape small = elim (find_by_lem (λ e. e.ip) s.ents r.ip v.0) [
  | inl (missing, none_there) ↦ (
    record s { unexpected_new = up s.unexpected_new },
    rw (missing, join_found) refl,
    v,
    shape,
    small,
    λ a b.
        ap (λ n. (cell a b s.matrix + n) % 2 ^ 64)
          (sym (moving_other a b r news s.ents none_there)),
  )
  | inr (i, e, found, at_i, first) ↦
      let ip = first_of-key (λ e. e.ip) r.ip s.ents e first in
      elim (Bool-cases (bit e.flags 4)) [
        | inl old ↦ (
          record s { new_dup_records = up s.new_dup_records },
          rw (found, join_found, old) refl,
          v,
          shape,
          small,
          λ a b.
              ap (λ n. (cell a b s.matrix + n) % 2 ^ 64)
                (sym (
                  moving_found a b r news s.ents i e v at_i ip
                  ∙ rw old (moving_again a b news s.ents i e v.1 at_i old))),
        )
        | inr fresh ↦
            let e' = record e { flags = bit_or e.flags 4 } in
            let target = IsTarget-get s.ents i e v.1 at_i in
            let (matrix, bumped, shape', cells) =
              bump_cell_lem e.status r.status s.matrix (ltb→lt _ 8 target.1) (ltb→lt _ 9 low)
                shape in
            let s' = record s { ents = set_seen i s.ents; matrix = matrix } in
            let (ents_eq, matrix_eq) = count_answer-Kept e' r s' in
            (
              count_answer e' r s',
              rw (found, join_found, fresh, bumped) refl,
              subst AreTargets (sym ents_eq) (set_seen-AreTargets i s.ents v),
              subst IsMatrix (sym matrix_eq) shape',
              subst Small (sym matrix_eq) (λ a b. rw (cells a b) (cell_lt _ _ (small a b))),
              λ a b.
                  rw
                    (
                      ents_eq,
                      matrix_eq,
                      cells a b,
                      moving_found a b r news s.ents i e v at_i ip,
                      fresh,
                    )
                    (count_step _ _ _),
            )
      ]
]

count_missing_lem :
    (es : List OldEnt) (m : List (List ℕ))
    → All IsTarget es
    → IsMatrix m
    → Small m
    → (m' : List (List ℕ)) × (count_missing es m ≡ some m')
      × IsMatrix m'
      × ((a b : ℕ) → cell a b m' ≡ (cell a b m + moving a b [] es) % 2 ^ 64)
unfolding count_missing
count_missing_lem [] m v shape small = (m, refl, shape, λ a b. omega (arith, small a b))
count_missing_lem (e ∷ es) m v shape small = elim (Bool-cases (bit e.flags 4)) [
  | inl old ↦
      let (m', run, last, cells) = count_missing_lem es m v.1 shape small in
      (m', rw (old, count_missing) run, last, λ a b. rw old (cells a b))
  | inr fresh ↦
      let (m1, bumped, shape', cells) =
        bump_cell_lem e.status missing_col m (ltb→lt _ 8 v.0.1) (omega arith) shape in
      let small' : Small m1 = λ a b. rw (cells a b) (cell_lt _ _ (small a b)) in
      let (m', run, last, more) = count_missing_lem es m1 v.1 shape' small' in
      (
        m',
        rw (fresh, count_missing, bumped) run,
        last,
        λ a b. rw (more a b, cells a b, fresh) (count_step _ _ _),
      )
]

join_records_run :
    (rs : List Rec) (s : Joining)
    → All (λ r. ltb r.status 9 ≡ true) rs
    → AreTargets s.ents
    → IsMatrix s.matrix
    → Small s.matrix
    → (s' : Joining) × (join_records rs s ≡ some s')
      × AreTargets s'.ents
      × IsMatrix s'.matrix
      × Small s'.matrix
      × ((a b : ℕ)
          → (cell a b s'.matrix + moving a b [] s'.ents) % 2 ^ 64
            ≡ (cell a b s.matrix + moving a b rs s.ents) % 2 ^ 64)
unfolding join_records
join_records_run [] s low v shape small = (s, refl, v, shape, small, λ a b. refl)
join_records_run (r ∷ rs) s low v shape small =
    let (s1, one, v1, shape1, small1, step) = join_record-Joined r rs s low.0 v shape small in
    let (s', run, v', shape', small', steps) = join_records_run rs s1 low.1 v1 shape1 small1 in
    (s', rw (join_records, one) run, v', shape', small', λ a b. steps a b ∙ step a b)

-- For targets in the strict order of their addresses, with a code and flags as `loadOldTargets`
-- sets them, an 8 by 9 matrix of uint64 counters, and records of the new pass with a status code
-- of at most 8: the join and the loop behind it do not panic, they leave an 8 by 9 matrix, and they
-- add to the counter of each transition, modulo 2 ^ 64, the number of the targets that make it: those not marked yet, of the
-- old status, whose first record in the new pass has the new status, where a target without a
-- record counts as missing.
pub join_records_lem :
    (rs : List Rec) (s : Joining)
    → All (λ r. ltb r.status 9 ≡ true) rs
    → AreTargets s.ents
    → IsMatrix s.matrix
    → Small s.matrix
    → (s' : Joining) × (m : List (List ℕ)) × (join_records rs s ≡ some s')
      × (count_missing s'.ents s'.matrix ≡ some m)
      × IsMatrix m
      × ((a b : ℕ) → cell a b m ≡ (cell a b s.matrix + moving a b rs s.ents) % 2 ^ 64)
join_records_lem rs s low v shape small =
    let (s', run, v', shape', small', steps) = join_records_run rs s low v shape small in
    let (m, missing, last, cells) = count_missing_lem s'.ents s'.matrix v'.1 shape' small' in
    (s', m, run, missing, last, λ a b. cells a b ∙ steps a b)
