-- ===== src/Tests/Passes.antt =====
-- internal/merge and internal/compare: two passes at concrete inputs.
use r_dns_crawler.Base.{
  ℕ, ◌+◌, ◌%◌, ◌^◌, ◌<◌, ◌≡◌, refl, true, false, List, [], ◌∷◌, some, codes, length, arith,
  bytes_eq,
}
use r_dns_crawler.Base.{All, ltb, zero, suc, ap, ◌∙◌, join}
use r_dns_crawler.Base.Counters.{count_at, zeros, count_at-zeros}
use r_dns_crawler.Base.Keyed.{sort_by, insert_by, dedup_by, dedup_from}
use r_dns_crawler.Base.Keyed.Laws.Sort.{sort_by-Sorted, sort_by-perm}
use r_dns_crawler.Base.Results.{ok}
use r_dns_crawler.Model.Status.{code, status_to_code, status_string}
use r_dns_crawler.Store.Codec.{copying}
use r_dns_crawler.Store.Block.{Rec, finished}
use r_dns_crawler.Merge.Load.{
  Loaded, load_new_shard, load_records, load_record, ent_flags, load_end, table, sort_stable, dedup,
}
use r_dns_crawler.Merge.Shard.{Merging, merge_records}
use r_dns_crawler.Merge.Spec.{merged}
use r_dns_crawler.Merge.Refines.{load_new_shard-merged}
use r_dns_crawler.Compare.Load.{OldEnt, old_targets, dedup_sorted}
use r_dns_crawler.Compare.Join.{Joining}
use r_dns_crawler.Compare.Join.Cells.{cell, row}
use r_dns_crawler.Compare.Join.Counted.{moving, AreTargets}
use r_dns_crawler.Compare.Targets.{Sorts, listed, targeted, dedup_sorted-targets}
use r_dns_crawler.Compare.Report.{row_at, crawled_cells}
use r_dns_crawler.Compare.Report.Cells.{run-transitions}
use r_dns_crawler.Model.Mask.{has}
use r_dns_crawler.Compare.Final.{column_name, transitions, value_at, crawled, removed, transient}
use r_dns_crawler.Compare.Final.Whole.{run_parts}
use r_dns_crawler.Base.Results.{◌>>=◌}
use r_dns_crawler.Merge.Pairs.{file_of, sorted_keys}
use r_dns_crawler.Compare.Final.Sums.{Unmarked}
use r_dns_crawler.Compare.Run.{
  PassInfo, run, discover, discover_from, file_header, add_file, pass_info, run_shards, div_int64,
  Comparison, no_comparison, compare_shard,
}
use r_dns_crawler.Compare.Run.Shard.{whole, targets_of, compare_shard_lem}
use r_dns_crawler.Tests.Data.{old, old-header, old-scan, pass, records, pass-scan}

abbrev answered : ℕ → Rec
answered ip = record {
  ip = ip;
  status = 0;
  ptr = codes "a.b" ∷ [];
  fc_checked = true;
  fc_match = false;
}

abbrev failing : ℕ → Rec
failing ip = record { ip = ip; status = 5; ptr = []; fc_checked = false; fc_match = false }

-- A re-crawl with a new answer and a transient failure, and a baseline with a failure, a known name,
-- another one, and a duplicate.
abbrev update : List Rec
update = answered 16843010 ∷ failing 16843009 ∷ []

abbrev baseline : List Rec
baseline = answered 16843009 ∷ failing 16843010 ∷ answered 16843011 ∷ failing 16843009 ∷ []

abbrev update_table : Loaded
update_table = record {
  ents =
      record { ip = 16843009; sf = 5; name_off = 0; name_len = 0 }
      ∷ record { ip = 16843010; sf = 16; name_off = 0; name_len = 3 }
      ∷ [];
  arena = codes "a.b";
  truncated = false;
  new_dups = 0;
}

abbrev start : Merging
start = record {
  ents = update_table.ents;
  seen = λ ip. false;
  merged_counts = 0 ∷ 0 ∷ 0 ∷ 0 ∷ 0 ∷ 0 ∷ 0 ∷ 0 ∷ [];
  old_total = 0;
  merged = 0;
  gained = 0;
  removed_auth = 0;
  ptr_changed = 0;
  ptr_unchanged = 0;
  grace_kept = 0;
  missing_kept = 0;
  old_dups = 0;
}

loaded : load_new_shard (update, finished) ≡ ok update_table
unfolding load_new_shard load_records load_record ent_flags load_end table sort_stable dedup sort_by
    insert_by dedup_by dedup_from join
loaded = refl

load_new_shard-merged_example :
    (last : Merging) × (merge_records update_table.arena 255 baseline start
      ≡ some (merged 255 update start.seen baseline, last))
load_new_shard-merged_example =
    load_new_shard-merged update finished update_table 255 baseline start
      (
        (refl, (λ h. λ e. cc), (λ h. absurd (h refl)), (ground arith, tt)),
        ((refl, (λ h. absurd (omega arith)), (λ h. refl), tt), tt),
      )
      (loaded) (refl, (refl, (refl, (refl, tt)))) refl

abbrev by_address : List OldEnt → List OldEnt
by_address es = sort_by (λ e. e.ip) es

by_address-Sorts : Sorts by_address
by_address-Sorts = record { sorted = sort_by-Sorted (λ e. e.ip); same = sort_by-perm (λ e. e.ip) }

dedup_sorted-targets_example :
    let t = dedup_sorted (by_address (old_targets 33 baseline)) in
    AreTargets t.0
    × Unmarked t.0
    × ((ip : ℕ) → listed ip t.0 ≡ targeted 33 ip baseline)
    × (length t.0 + t.1 ≡ length (old_targets 33 baseline))
dedup_sorted-targets_example =
    dedup_sorted-targets by_address 33 baseline by_address-Sorts (refl, (refl, (refl, (refl, tt))))

abbrev target : ℕ → ℕ → OldEnt
target ip status = record { ip = ip; status = status; flags = 0; hash = 0 }

abbrev joining : Joining
joining = record no_comparison.state { ents = target 16843009 0 ∷ target 16843010 5 ∷ [] }

zero_cells : (m : List (List ℕ)) → All (λ r. r ≡ zeros 9) m → (a b : ℕ) → cell a b m ≡ 0
zero_cells [] h a b = refl
zero_cells (r ∷ m) h zero b = ap (count_at b) h.0 ∙ count_at-zeros 9 b
zero_cells (r ∷ m) h (suc a) b = zero_cells m h.1 a b

zero-Small : (a b : ℕ) → cell a b joining.matrix < 2 ^ 64
zero-Small a b = omega (
  arith,
  zero_cells joining.matrix (refl, (refl, (refl, (refl, (refl, (refl, (refl, (refl, tt)))))))) a b,
)

records_low : All (λ r. ltb r.status 8 ≡ true) records
unfolding code status_to_code bytes_eq
records_low = (refl, (refl, tt))

records_low9 : All (λ r. ltb r.status 9 ≡ true) records
unfolding code status_to_code bytes_eq
records_low9 = (refl, (refl, tt))

compare_shard_lem_example :
    (c' : Comparison) × (compare_shard copying by_address 255 0 pass pass no_comparison ≡ ok c')
    × ((from to : ℕ)
        → cell from to c'.state.matrix
          ≡ (cell from to no_comparison.state.matrix
              + moving from to records (targets_of by_address 255 records))
            % 2 ^ 64)
compare_shard_lem_example =
    compare_shard_lem copying by_address 255 0 pass pass records records finished no_comparison
      by_address-Sorts pass-scan records_low pass-scan whole records_low9
      (refl, (refl, (refl, (refl, (refl, (refl, (refl, (refl, (refl, tt))))))))) zero-Small

-- A pass of one file, compared with itself.
shard_compared :
    (c' : Comparison) × (compare_shard copying by_address 255 2 old old no_comparison ≡ ok c')
    × ((from to : ℕ)
        → cell from to c'.state.matrix
          ≡ (cell from to no_comparison.state.matrix
              + moving from to records (targets_of by_address 255 records))
            % 2 ^ 64)
shard_compared =
    compare_shard_lem copying by_address 255 2 old old records records finished no_comparison
      by_address-Sorts old-scan records_low old-scan whole records_low9
      (refl, (refl, (refl, (refl, (refl, (refl, (refl, (refl, (refl, tt))))))))) zero-Small

abbrev info : PassInfo
info = record { files = 1; shards = 7; created = 1700000000; total_queried = 5 }

compared_all : run copying by_address 255 (old ∷ []) (old ∷ []) ≡ ok (info, info, shard_compared.0)
unfolding run discover discover_from file_header add_file pass_info run_shards file_of sorted_keys
    div_int64
compared_all = rw (old-header, ◌>>=◌, shard_compared.1) refl

run_parts_example :
    let c = shard_compared.0 in
    let hp = row 0 c.state.matrix in
    (c.state.ptr_unchanged + c.state.ptr_changed + removed hp + transient hp) % 2 ^ 64 ≡ crawled hp
run_parts_example =
    run_parts copying by_address 255 (old ∷ []) (old ∷ []) info info shard_compared.0 compared_all

run-transitions_example :
    let m = shard_compared.0.state.matrix in
    let cells = row_at (status_string 0) (transitions 255 0 8 m) in
    (value_at (column_name 2) cells ≡ cell 0 2 m) × (crawled_cells 0 cells ≡ crawled (row 0 m))
unfolding has
run-transitions_example =
    run-transitions copying by_address 255 (old ∷ []) (old ∷ []) info info shard_compared.0 0 2
      compared_all refl (omega arith) (omega arith)
