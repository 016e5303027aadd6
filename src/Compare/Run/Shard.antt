-- ===== src/Compare/Run/Shard.antt =====
-- internal/compare/compare.go: the body of the loop of `Run`, from the two files of a shard.
use r_dns_crawler.Base.{ℕ, ◌+◌, ◌%◌, ◌^◌, ◌≡◌, refl, Bool, true, false, List, some, Bytes, ltb, All}
use r_dns_crawler.Base.Results.{ok}
use r_dns_crawler.Store.Codec.{Codec}
use r_dns_crawler.Store.Block.{Rec, Outcome, finished, failed, truncated_tail}
use r_dns_crawler.Store.Scan.{scan}
use r_dns_crawler.Compare.Load.{OldEnt, load_old_targets, old_targets, dedup_sorted}
use r_dns_crawler.Compare.Join.{Joining}
use r_dns_crawler.Compare.Join.Cells.{cell, IsMatrix}
use r_dns_crawler.Compare.Join.Counted.{moving}
use r_dns_crawler.Compare.Join.Laws.{Small, join_records_lem}
use r_dns_crawler.Compare.Targets.{Sorts, dedup_sorted-targets}
use r_dns_crawler.Compare.Run.{Comparison, compare_shard, compared, join_end, old_end, missing_end}

-- The new file is whole or cut off at its end.
pub data Readable : Outcome → Type 0 where
  whole : Readable finished
  cut : Readable (failed truncated_tail)

-- The targets of a shard.
abbrev pub targets_of : (List OldEnt → List OldEnt) → ℕ → List Rec → List OldEnt
targets_of sort_ents mask olds = (dedup_sorted (sort_ents (old_targets mask olds))).0

join_end_lem :
    {e : Outcome} (s : Joining) → Readable e → (t : Bool) × (join_end e (some s) ≡ ok (t, s))
unfolding join_end
join_end_lem s whole = (false, refl)
join_end_lem s cut = (true, refl)

module _ (z : Codec) (sort_ents : List OldEnt → List OldEnt) (mask : ℕ) where
  -- For a sort that keeps the entries and puts them in order, an old file that scans to its end,
  -- with one of the eight codes in each record, a new file that scans to its end or to a truncated
  -- tail, with status codes of at most 8, and an 8 by 9 matrix of uint64 counters: comparing the
  -- shard succeeds, and the counter of each transition grows, modulo 2 ^ 64, by the number of the
  -- shard's targets with the old status whose first record in the new file has the new status, or
  -- which have none there, for the last column.
  pub compare_shard_lem :
      (id : ℕ) (old new : Bytes) (olds news : List Rec) (e : Outcome) (c : Comparison)
      → Sorts sort_ents
      → scan z old ≡ (olds, finished)
      → All (λ r. ltb r.status 8 ≡ true) olds
      → scan z new ≡ (news, e)
      → Readable e
      → All (λ r. ltb r.status 9 ≡ true) news
      → IsMatrix c.state.matrix
      → Small c.state.matrix
      → (c' : Comparison) × (compare_shard z sort_ents mask id old new c ≡ ok c')
        × ((from to : ℕ)
            → cell from to c'.state.matrix
              ≡ (cell from to c.state.matrix + moving from to news (targets_of sort_ents mask olds))
                % 2 ^ 64)
  unfolding compare_shard load_old_targets old_end missing_end compared
  compare_shard_lem id old new olds news e c sorts old_scan old_low new_scan readable low shape
        small =
      let ents = targets_of sort_ents mask olds in
      let s = record c.state { ents = ents } in
      let v = (dedup_sorted-targets sort_ents mask olds sorts old_low).0 in
      let (s', m, run, missing, last, cells) = join_records_lem news s low v shape small in
      let (t, ended) = join_end_lem s' readable in
      (
        compared id ents (dedup_sorted (sort_ents (old_targets mask olds))).1 t
            (record s' { matrix = m }) c,
        rw (old_scan, new_scan, run, ended, missing) refl,
        cells,
      )
