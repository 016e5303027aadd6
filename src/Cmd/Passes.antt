-- ===== src/Cmd/Passes.antt =====
-- cmd/rdns-crawler/main.go: the commands `compare` and `merge` around their packages. A pass is named
-- by a path, and `pass` gives its files in the order of the glob.
use r_dns_crawler.Base.{ℕ, Bool, ◌||◌, List, Bytes, bytes_nil, if◌then◌else◌}
use r_dns_crawler.Base.Results.{Result, ok, err, ◌>>=◌}
use r_dns_crawler.Model.Record.{Record}
use r_dns_crawler.Model.Mask.{ParseError, parse_statuses}
use r_dns_crawler.Store.Codec.{Codec}
use r_dns_crawler.Merge.Run.{MergeError, ShardResult, Totals}
use r_dns_crawler.Merge.Pairs as Merge
use r_dns_crawler.Compare.Load.{OldEnt}
use r_dns_crawler.Compare.Run.{CompareError, Comparison, PassInfo}
use r_dns_crawler.Compare.Run as Compare

pub data PassError : Type 0 where
  missing_flag : PassError
  bad_mask : ParseError → PassError
  not_compared : CompareError → PassError
  not_merged : MergeError → PassError

unfoldable pub check_flags : Bool → Result PassError (Unit {0})
check_flags missing = if missing then err missing_flag else ok tt

unfoldable pub pass_mask : Result ParseError ℕ → Result PassError ℕ
pass_mask (err e) = err (bad_mask e)
pass_mask (ok mask) = ok mask

unfoldable pub pass_merged :
    Result MergeError (List (ShardResult × Bytes) × Totals)
    → Result PassError (List (ShardResult × Bytes) × Totals)
pass_merged (err e) = err (not_merged e)
pass_merged (ok r) = ok r

unfoldable pub pass_joined :
    Result CompareError (PassInfo × PassInfo × Comparison)
    → Result PassError (PassInfo × PassInfo × Comparison)
pass_joined (err e) = err (not_compared e)
pass_joined (ok r) = ok r

module _ (z : Codec) (pass : Bytes → List Bytes) where
  -- `runCompare` up to the report.
  unfoldable pub run_compare :
      (List OldEnt → List OldEnt)
      → (old new statuses : Bytes) → Result PassError (PassInfo × PassInfo × Comparison)
  unfolding check_flags pass_mask pass_joined
  run_compare sort_ents old new statuses = do
    given ← check_flags (bytes_nil old || bytes_nil new)
    mask ← pass_mask (parse_statuses statuses)
    pass_joined (Compare.run z sort_ents mask (pass old) (pass new))

  -- `runMerge` up to the report: the results of the shards with the files that are written.
  unfoldable pub run_merge :
      (List Record → List Record)
      → (in_place : ℕ → Bool) → (old new out statuses : Bytes) → (allow_partial : Bool)
      → Result PassError (List (ShardResult × Bytes) × Totals)
  unfolding check_flags pass_mask pass_merged
  run_merge sort_slice in_place old new out statuses allow_partial = do
    given ← check_flags (bytes_nil old || (bytes_nil new || bytes_nil out))
    mask ← pass_mask (parse_statuses statuses)
    pass_merged (Merge.run z sort_slice in_place mask allow_partial (pass old) (pass new))
