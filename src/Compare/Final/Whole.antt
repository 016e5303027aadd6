-- ===== src/Compare/Final/Whole.antt =====
-- internal/compare/compare.go: the headline numbers of a whole comparison.
use r_dns_crawler.Base.{
  ℕ, zero, suc, ◌+◌, ◌%◌, ◌^◌, ◌<◌, ◌≡◌, refl, sym, ap, subst, ◌∙◌, Bool, List, [], ◌∷◌, ◌++◌,
  Option, some, none, length, ◌==◌, Option-cases, arith, All, Bool-cases, inl, inr, Bytes,
}
use r_dns_crawler.Base.Counters.{count_at, count_at-zeros}
use r_dns_crawler.Base.Results.{ok, ◌>>=◌, Result-cases, ok_injective}
use r_dns_crawler.Store.Block.{Outcome, finished, failed, stuck, panicked, truncated_tail}
use r_dns_crawler.Compare.Load.{OldEnt}
use r_dns_crawler.Merge.Pairs.{file_of, sorted_keys}
use r_dns_crawler.Compare.Load.{load_old_targets, dedup_sorted}
use r_dns_crawler.Compare.Run.{
  Comparison, compare_shard, compared, discover, PassInfo, join_end, missing_end, old_end,
  run_shards, run, no_comparison,
}
use r_dns_crawler.Store.Codec.{Codec}
use r_dns_crawler.Store.Scan.{scan}
use r_dns_crawler.Compare.Join.{Joining, join_records, count_missing}
use r_dns_crawler.Compare.Join.Cells.{cell, row}
use r_dns_crawler.Compare.Final.Sums.{row-length}
use r_dns_crawler.Compare.Final.{crawled, removed, transient}
use r_dns_crawler.Compare.Final.Shares.{
  IsBalanced, join_records-IsBalanced, count_missing-IsBalanced,
}

join_end-ok :
    (e : Outcome) (o : Option Joining) {t : Bool} {s : Joining}
    → join_end e o ≡ ok (t, s)
    → o ≡ some s
unfolding join_end
join_end-ok e none h = absurd (cc)
join_end-ok finished (some s) h = cc
join_end-ok (failed truncated_tail) (some s) h = cc
join_end-ok (failed other) (some s) h = absurd (cc)
join_end-ok stuck (some s) h = absurd (cc)
join_end-ok panicked (some s) h = absurd (cc)

missing_end-ok :
    (o : Option (List (List ℕ))) {m : List (List ℕ)} → missing_end o ≡ ok m → o ≡ some m
unfolding missing_end
missing_end-ok none h = absurd (cc)
missing_end-ok (some m) h = cc

module _ (z : Codec) (sort_ents : List OldEnt → List OldEnt) (mask : ℕ) where
  compare_shard-IsBalanced :
      (id : ℕ) (old new : Bytes) (c : Comparison) {c' : Comparison}
      → IsBalanced c.state
      → compare_shard z sort_ents mask id old new c ≡ ok c'
      → IsBalanced c'.state
  unfolding compare_shard compared
  compare_shard-IsBalanced id old new c v h =
      elim (Result-cases (old_end (load_old_targets mask (scan z old)))) [
        | inr (e, bad) ↦ absurd (cc (rw (bad, ◌>>=◌) at h))
        | inl (loaded, read) ↦
            let ents = (dedup_sorted (sort_ents loaded)).0 in
            elim (Result-cases (
              join_end (scan z new).1
                (join_records (scan z new).0 (record c.state { ents = ents })))) [
                  | inr (e, bad) ↦ absurd (cc (rw (read, ◌>>=◌, bad) at h))
                  | inl ((truncated, s), went) ↦
                      elim (Result-cases (missing_end (count_missing s.ents s.matrix))) [
                        | inr (e, bad) ↦ absurd (cc (rw (read, ◌>>=◌, went, bad) at h))
                        | inl (m, counted) ↦
                            let joined =
                              join_records-IsBalanced (scan z new).0
                                (record c.state { ents = ents })
                                (record { shape = v.shape; small = v.small; balance = v.balance })
                                (join_end-ok (scan z new).1 _ went) in
                            let (shape, small, same) =
                              count_missing-IsBalanced s.ents s.matrix joined.shape joined.small
                                (missing_end-ok _ counted) in
                            subst (λ q. IsBalanced q.state)
                              (ok_injective (rw (read, ◌>>=◌, went, counted) at h))
                              (record {
                                shape = shape;
                                small = small;
                                balance = joined.balance ∙ sym same;
                              })
                      ]
                ]
      ]

  run_shards-IsBalanced :
      (old new : List (ℕ × Bytes)) (ids : List ℕ) (c : Comparison) {c' : Comparison}
      → IsBalanced c.state
      → run_shards z sort_ents mask old new ids c ≡ ok c'
      → IsBalanced c'.state
  unfolding run_shards
  run_shards-IsBalanced old new [] c v h = subst (λ q. IsBalanced q.state) (ok_injective h) v
  run_shards-IsBalanced old new (id ∷ ids) c v h = elim (Option-cases (file_of id old)) [
    | inl absent ↦ run_shards-IsBalanced old new ids c v (rw (absent, run_shards) at h)
    | inr (file, there) ↦ elim (Option-cases (file_of id new)) [
      | inl absent ↦
          run_shards-IsBalanced old new ids
            (record c { missing_new_shards = c.missing_new_shards ++ (id ∷ []) }) v
            (rw (there, run_shards, absent) at h)
      | inr (update, found) ↦
          elim (Result-cases (compare_shard z sort_ents mask id file update c)) [
            | inr (e, bad) ↦ absurd (cc (rw (there, run_shards, found, bad, ◌>>=◌) at h))
            | inl (c1, went) ↦
                run_shards-IsBalanced old new ids c1
                  (compare_shard-IsBalanced id file update c v went)
                  (rw (there, run_shards, found, went, ◌>>=◌) at h)
          ]
    ]
  ]

parts :
    (hp : List ℕ)
    → length hp ≡ 9
    → ((b : ℕ) → count_at b hp < 2 ^ 64)
    → (count_at 0 hp + removed hp + transient hp) % 2 ^ 64 ≡ crawled hp
unfolding removed transient crawled
parts (a ∷ b ∷ c ∷ d ∷ e ∷ f ∷ g ∷ h ∷ i ∷ []) len small = omega (arith, small 8)
parts _ len small = absurd (omega (arith, len))

zero_cell : (a b : ℕ) (m : List (List ℕ)) → All (λ r. count_at b r ≡ 0) m → cell a b m ≡ 0
zero_cell a b [] h = refl
zero_cell zero b (r ∷ m) h = h.0
zero_cell (suc a) b (r ∷ m) h = zero_cell a b m h.1

no_comparison-IsBalanced : IsBalanced no_comparison.state
no_comparison-IsBalanced = record {
  shape = (refl, (refl, (refl, (refl, (refl, (refl, (refl, (refl, (refl, tt)))))))));
  small = λ a b.
      let z9 = count_at-zeros 9 b in
      let none =
        zero_cell a b no_comparison.state.matrix
          (z9, (z9, (z9, (z9, (z9, (z9, (z9, (z9, tt)))))))) in
      omega (arith, none);
  balance = refl;
}

pub run-IsBalanced :
    (z : Codec) (sort_ents : List OldEnt → List OldEnt) (mask : ℕ)
    (old_files new_files : List Bytes) (old new : PassInfo) (c : Comparison)
    → run z sort_ents mask old_files new_files ≡ ok (old, new, c)
    → IsBalanced c.state
unfolding run
run-IsBalanced z sort_ents mask old_files new_files old new c h =
    elim (Result-cases (discover old_files)) [
      | inr (e, bad) ↦ absurd (cc (rw (bad, ◌>>=◌) at h))
      | inl ((olds, old_info), found) ↦ elim (Result-cases (discover new_files)) [
        | inr (e, bad) ↦ absurd (cc (rw (found, ◌>>=◌, bad) at h))
        | inl ((news, new_info), there) ↦ elim (Bool-cases (old_info.shards == new_info.shards)) [
          | inr differ ↦ absurd (cc (rw (found, ◌>>=◌, there, differ) at h))
          | inl agree ↦
              elim (Result-cases
                (run_shards z sort_ents mask olds news (sorted_keys olds) no_comparison)) [
                  | inr (e, bad) ↦ absurd (cc (rw (found, ◌>>=◌, there, agree, bad) at h))
                  | inl (c', went) ↦
                      subst (λ q. IsBalanced q.state)
                        (ap (λ t. t.2) (ok_injective (rw (found, ◌>>=◌, there, agree, went) at h)))
                        (run_shards-IsBalanced z sort_ents mask olds news (sorted_keys olds)
                          no_comparison no_comparison-IsBalanced went)
                ]
        ]
      ]
    ]

-- A comparison that succeeds: of the crawled targets that had names, the numbers of those whose names
-- stayed, whose names changed, that now answer without a name and that failed add up, modulo 2 ^ 64,
-- to the number of the crawled targets, of which `finalize` takes them as percentages.
pub run_parts :
    (z : Codec) (sort_ents : List OldEnt → List OldEnt) (mask : ℕ)
    (old_files new_files : List Bytes) (old new : PassInfo) (c : Comparison)
    → run z sort_ents mask old_files new_files ≡ ok (old, new, c)
    → let hp = row 0 c.state.matrix in
      (c.state.ptr_unchanged + c.state.ptr_changed + removed hp + transient hp) % 2 ^ 64
      ≡ crawled hp
run_parts z sort_ents mask old_files new_files old new c h =
    let v = run-IsBalanced z sort_ents mask old_files new_files old new c h in
    let m = c.state.matrix in
    let long = row-length 0 m (omega (arith, v.shape.0)) v.shape.1 in
    omega (arith, parts (row 0 m) long (v.small 0), v.balance)
