-- ===== src/Merge/Pairs.antt =====
-- internal/merge/merge.go, `discover` and `Run`: the shard files of two passes and their pairing. A
-- pass is the list of its files, in the order of the glob.
use r_dns_crawler.Base.{
  ℕ, ◌+◌, ◌%◌, ◌^◌, Bool, false, List, [], ◌∷◌, ◌++◌, Option, some, none, Bytes, leb, ◌==◌,
  if◌then◌else◌,
}
use r_dns_crawler.Base.Counters.{zeros}
use r_dns_crawler.Base.Results.{Result, ok, err, ◌>>=◌}
use r_dns_crawler.Model.Record.{Record}
use r_dns_crawler.Model.Status.{num_status_codes}
use r_dns_crawler.Store.Codec.{Codec}
use r_dns_crawler.Merge.Run.{
  ShardResult, Totals, MergeError, no_files, claimed_twice, no_new_shard, file_header, merge_shard,
}

-- A map from shard ids to files.
unfoldable pub file_of : ℕ → List (ℕ × Bytes) → Option Bytes
file_of id [] = none
file_of id ((k, file) ∷ shards) = if k == id then some file else file_of id shards

unfoldable pub claim : ℕ → Bytes → List (ℕ × Bytes) → Result MergeError (List (ℕ × Bytes))
claim id file shards = elim (file_of id shards) [
  | some prev ↦ err (claimed_twice id)
  | none ↦ ok (shards ++ ((id, file) ∷ []))
]

-- The loop of `discover`.
unfoldable pub discover_from : List (ℕ × Bytes) → List Bytes → Result MergeError (List (ℕ × Bytes))
discover_from shards [] = ok shards
discover_from shards (file ∷ files) = do
  h ← file_header file
  shards' ← claim h.shard_id file shards
  discover_from shards' files

unfoldable pub discover : List Bytes → Result MergeError (List (ℕ × Bytes))
unfolding discover_from
discover [] = err no_files
discover (file ∷ files) = discover_from [] (file ∷ files)

-- `sortedKeys`.
unfoldable pub insert_key : ℕ → List ℕ → List ℕ
insert_key k [] = k ∷ []
insert_key k (j ∷ js) = if leb k j then k ∷ j ∷ js else j ∷ insert_key k js

unfoldable pub sorted_keys : List (ℕ × Bytes) → List ℕ
unfolding insert_key
sorted_keys [] = []
sorted_keys ((k, file) ∷ shards) = insert_key k (sorted_keys shards)

-- The state of `Run` before the first shard.
abbrev pub no_totals : Totals
no_totals = record {
  state = record {
    ents = [];
    seen = λ ip. false;
    merged_counts = zeros num_status_codes;
    old_total = 0;
    merged = 0;
    gained = 0;
    removed_auth = 0;
    ptr_changed = 0;
    ptr_unchanged = 0;
    grace_kept = 0;
    missing_kept = 0;
    old_dups = 0;
  };
  new_dups = 0;
  unexpected = 0;
  created = none;
}

unfoldable pub new_file : Bool → ℕ → List (ℕ × Bytes) → Result MergeError (Option Bytes)
new_file allow_partial id shards = elim (file_of id shards) [
  | some file ↦ ok (some file)
  | none ↦ if allow_partial then ok none else err (no_new_shard id)
]

module _ (z : Codec) (sort_slice : List Record → List Record) (in_place : ℕ → Bool) (mask : ℕ)
    (allow_partial : Bool) where
  -- The loop over the old shards: the results and the files, in order.
  unfoldable pub run_shards :
      (old new : List (ℕ × Bytes))
      → List ℕ
      → Totals
      → Result MergeError (List (ShardResult × Bytes) × Totals)
  run_shards old new [] t = ok ([], t)
  run_shards old new (id ∷ ids) t = elim (file_of id old) [
    | none ↦ run_shards old new ids t
    | some file ↦ do
      update ← new_file allow_partial id new
      (sr, out, t') ← merge_shard z sort_slice in_place mask allow_partial file update t
      (more, last) ← run_shards old new ids t'
      ok ((sr, out) ∷ more, last)
  ]

  -- `Run`.
  unfoldable pub run :
      (old_files new_files : List Bytes) → Result MergeError (List (ShardResult × Bytes) × Totals)
  run old_files new_files = do
    old ← discover old_files
    new ← discover new_files
    run_shards old new (sorted_keys old) no_totals

-- `MergedTotal`.
unfoldable pub merged_total : List ℕ → ℕ
merged_total [] = 0
merged_total (n ∷ counts) = (n + merged_total counts) % 2 ^ 64
