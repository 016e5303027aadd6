-- ===== src/Compare/Run.antt =====
-- internal/compare/compare.go, `discover` and `Run`: the files of two passes, paired by shard. A pass
-- is the list of its files, in the order of the glob.
pub mod Shard
use r_dns_crawler.Base.{
  ℕ, zero, suc, ◌+◌, ◌-◌, ◌/◌, ◌%◌, ◌^◌, Bool, true, false, List, [], ◌∷◌, ◌++◌, Option, some, none,
  Bytes, length, ltb, ◌==◌, if◌then◌else◌, map,
}
use r_dns_crawler.Base.Counters.{zeros}
use r_dns_crawler.Base.Hosts.{bump_keys}
use r_dns_crawler.Base.Results.{Result, ok, err, ◌>>=◌}
use r_dns_crawler.Model.Status.{num_status_codes, status_string}
use r_dns_crawler.Store.Codec.{Codec}
use r_dns_crawler.Store.Header.{Header, HeaderError, read_header}
use r_dns_crawler.Store.Block.{Outcome, finished, failed, truncated_tail}
use r_dns_crawler.Store.Scan.{scan}
use r_dns_crawler.Merge.Pairs.{file_of, sorted_keys}
use r_dns_crawler.Compare.Load.{OldEnt, load_old_targets, dedup_sorted}
use r_dns_crawler.Compare.Join.{Joining, join_records, count_missing}

pub data CompareError : Type 0 where
  bad_header : HeaderError → CompareError
  no_files : CompareError
  claimed_twice : ℕ → CompareError
  shards_differ : ℕ → CompareError
  layout_mismatch : CompareError
  bad_old : Outcome → CompareError
  bad_new : Outcome → CompareError
  panicked : CompareError

-- What `discover` gathers; `created_sum` is an int64, as its bit pattern.
pub record Found : Type 0 where
  pub claimed : List (ℕ × Bytes)
  pub shards : ℕ
  pub total_queried : ℕ
  pub created_sum : ℕ

unfoldable pub add_file : Bytes → Header → Found → Result CompareError Found
add_file file h f = elim (file_of h.shard_id f.claimed) [
  | some prev ↦ err (claimed_twice h.shard_id)
  | none ↦
      let f' = record f {
        claimed = f.claimed ++ ((h.shard_id, file) ∷ []);
        total_queried = (f.total_queried + h.total) % 2 ^ 64;
        created_sum = (f.created_sum + h.created) % 2 ^ 64;
      } in
      if f.shards == 0
      then ok (record f' { shards = h.shards })
      else if f.shards == h.shards
      then ok f'
      else err (shards_differ h.shards)
]

unfoldable pub file_header : Bytes → Result CompareError Header
file_header file = elim (read_header file) [ err e ↦ err (bad_header e) | ok h ↦ ok h ]

unfoldable pub discover_from : Found → List Bytes → Result CompareError Found
discover_from f [] = ok f
discover_from f (file ∷ files) = do
  h ← file_header file
  f' ← add_file file h f
  discover_from f' files

-- Division of an int64 by a positive number, towards 0.
unfoldable pub div_int64 : ℕ → ℕ → ℕ
div_int64 a n = if ltb a (2 ^ 63) then a / n else (2 ^ 64 - (2 ^ 64 - a) / n) % 2 ^ 64

pub record PassInfo : Type 0 where
  pub files : ℕ
  pub shards : ℕ
  pub created : ℕ
  pub total_queried : ℕ

unfoldable pub pass_info : List Bytes → Found → List (ℕ × Bytes) × PassInfo
unfolding div_int64
pass_info files f = (
  f.claimed,
  record {
    files = length files;
    shards = f.shards;
    created = div_int64 f.created_sum (length files);
    total_queried = f.total_queried;
  },
)

unfoldable pub discover : List Bytes → Result CompareError (List (ℕ × Bytes) × PassInfo)
unfolding discover_from pass_info
discover [] = err no_files
discover (file ∷ files) = do
  f ←
      discover_from (record { claimed = []; shards = 0; total_queried = 0; created_sum = 0 })
        (file ∷ files)
  ok (pass_info (file ∷ files) f)

-- What `Run` keeps across the shards.
pub record Comparison : Type 0 where
  pub state : Joining
  pub targets : List (Bytes × ℕ)
  pub old_dup_targets : ℕ
  pub compared_shards : List ℕ
  pub missing_new_shards : List ℕ
  pub truncated_new_shards : List ℕ

abbrev pub no_comparison : Comparison
no_comparison = record {
  state = record {
    ents = [];
    matrix = zeros 9 ∷ zeros 9 ∷ zeros 9 ∷ zeros 9 ∷ zeros 9 ∷ zeros 9 ∷ zeros 9 ∷ zeros 9 ∷ [];
    ptr_unchanged = 0;
    ptr_changed = 0;
    fc = record {
      both_checked = 0;
      match_both = 0;
      match_old_only = 0;
      match_new_only = 0;
      match_neither = 0;
    };
    gained = record { total = 0; fc_checked = 0; fc_match = 0 };
    tlds = [];
    new_dup_records = 0;
    unexpected_new = 0;
  };
  targets = [];
  old_dup_targets = 0;
  compared_shards = [];
  missing_new_shards = [];
  truncated_new_shards = [];
}

-- The end of the new file's scan: a truncated tail is reported, another error is fatal.
unfoldable pub join_end : Outcome → Option Joining → Result CompareError (Bool × Joining)
join_end e none = err panicked
join_end finished (some s) = ok (false, s)
join_end (failed truncated_tail) (some s) = ok (true, s)
join_end e (some s) = err (bad_new e)

unfoldable pub missing_end : Option (List (List ℕ)) → Result CompareError (List (List ℕ))
missing_end none = err panicked
missing_end (some m) = ok m

unfoldable pub old_end : Result Outcome (List OldEnt) → Result CompareError (List OldEnt)
old_end (err e) = err (bad_old e)
old_end (ok ents) = ok ents

-- The result behind a shard.
unfoldable pub compared : ℕ → List OldEnt → ℕ → Bool → Joining → Comparison → Comparison
compared id ents dups truncated s c = record c {
  state = s;
  targets = bump_keys (map (λ e. status_string e.status) ents) c.targets;
  old_dup_targets = (c.old_dup_targets + dups) % 2 ^ 64;
  compared_shards = c.compared_shards ++ (id ∷ []);
  truncated_new_shards =
      if truncated then c.truncated_new_shards ++ (id ∷ []) else c.truncated_new_shards;
}

-- `slices.SortFunc` is not stable: the sort is a parameter.
module _ (z : Codec) (sort_ents : List OldEnt → List OldEnt) (mask : ℕ) where
  -- The body of the loop for a shard that has a new file.
  unfoldable pub compare_shard : ℕ → Bytes → Bytes → Comparison → Result CompareError Comparison
  unfolding old_end join_end missing_end compared
  compare_shard id old new c = do
    loaded ← old_end (load_old_targets mask (scan z old))
    let (ents, dups) = dedup_sorted (sort_ents loaded)
    let (rs, e) = scan z new
    (truncated, s) ← join_end e (join_records rs (record c.state { ents = ents }))
    matrix ← missing_end (count_missing s.ents s.matrix)
    ok (compared id ents dups truncated (record s { matrix = matrix }) c)

  unfoldable pub run_shards :
      (old new : List (ℕ × Bytes)) → List ℕ → Comparison → Result CompareError Comparison
  run_shards old new [] c = ok c
  run_shards old new (id ∷ ids) c = elim (file_of id old) [
    | none ↦ run_shards old new ids c
    | some file ↦ elim (file_of id new) [
      | none ↦
          run_shards old new ids
            (record c { missing_new_shards = c.missing_new_shards ++ (id ∷ []) })
      | some update ↦ compare_shard id file update c >>= run_shards old new ids
    ]
  ]

  -- `Run` up to `finalize`.
  unfoldable pub run :
      (old_files new_files : List Bytes) → Result CompareError (PassInfo × PassInfo × Comparison)
  run old_files new_files = do
    (old, old_info) ← discover old_files
    (new, new_info) ← discover new_files
    c ←
        if old_info.shards == new_info.shards
        then run_shards old new (sorted_keys old) no_comparison
        else err layout_mismatch
    ok (old_info, new_info, c)
