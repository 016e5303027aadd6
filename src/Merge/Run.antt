-- ===== src/Merge/Run.antt =====
-- internal/merge/merge.go: `mergeShard` around its loop, `discover` and `Run`. Files are lists of
-- bytes; the output of a shard is the file that `Close` leaves.
use r_dns_crawler.Base.{
  ℕ, ◌+◌, ◌%◌, ◌^◌, Bool, true, false, not, ◌&&◌, ◌||◌, List, [], Option, some, none, Bytes, length,
  ltb, ◌==◌, if◌then◌else◌,
}
use r_dns_crawler.Base.Counters.{zeros}
use r_dns_crawler.Base.Results.{Result, ok, err, ◌>>=◌}
use r_dns_crawler.Model.Record.{Record}
use r_dns_crawler.Store.Codec.{Codec}
use r_dns_crawler.Store.Header.{Header, HeaderError, header_size, read_header}
use r_dns_crawler.Store.Block.{Outcome, finished}
use r_dns_crawler.Store.Scan.{scan}
use r_dns_crawler.Store.Writer.{new_writer, consume, close}
use r_dns_crawler.Merge.Load.{Ent, Loaded, LoadError, load_new_shard}
use r_dns_crawler.Merge.Shard.{Merging, merge_records, unexpected_new}

pub record ShardResult : Type 0 where
  pub shard : ℕ
  pub old_total : ℕ
  pub new_total : ℕ
  pub merged : ℕ
  pub truncated : Bool

-- What `Run` keeps across the shards. `created` is a Unix time as the bit pattern of an int64, and
-- `none` is the zero time.
pub record Totals : Type 0 where
  pub state : Merging
  pub new_dups : ℕ
  pub unexpected : ℕ
  pub created : Option ℕ

pub data MergeError : Type 0 where
  bad_header : HeaderError → MergeError
  bad_new : LoadError → MergeError
  truncated_new : MergeError
  identity_mismatch : MergeError
  bad_baseline : Outcome → MergeError
  panicked : MergeError
  no_files : MergeError
  claimed_twice : ℕ → MergeError
  no_new_shard : ℕ → MergeError

unfoldable pub file_header : Bytes → Result MergeError Header
file_header file = elim (read_header file) [ err e ↦ err (bad_header e) | ok h ↦ ok h ]

unfoldable pub loaded_new : Result LoadError Loaded → Result MergeError Loaded
loaded_new (err e) = err (bad_new e)
loaded_new (ok l) = ok l

-- The new pass of a shard: its header and its table.
pub record NewPass : Type 0 where
  pub new_header : Header
  pub loaded : Loaded

unfoldable pub check_new : Bool → Header → Header → Loaded → Result MergeError (Option NewPass)
check_new allow_partial old new l =
    if l.truncated && not allow_partial
    then err truncated_new
    else if not (new.shards == old.shards) || not (new.shard_id == old.shard_id)
    then err identity_mismatch
    else ok (some (record { new_header = new; loaded = l }))

-- `after a b`: the time `a` is later, as int64 values.
unfoldable pub after : ℕ → Option ℕ → Bool
after a none = true
after a (some b) = ltb ((b + 2 ^ 63) % 2 ^ 64) ((a + 2 ^ 63) % 2 ^ 64)

unfoldable pub later : ℕ → Option ℕ → Option ℕ
later a b = if after a b then some a else b

-- The start of the writer, the table, its arena and the flag, with and without a new pass.
unfoldable pub start_time : Header → Option NewPass → ℕ
start_time old none = old.created
start_time old (some n) = n.new_header.created

unfoldable pub pass_ents : Option NewPass → List Ent
pass_ents none = []
pass_ents (some n) = n.loaded.ents

unfoldable pub pass_arena : Option NewPass → Bytes
pass_arena none = []
pass_arena (some n) = n.loaded.arena

unfoldable pub pass_truncated : Option NewPass → Bool
pass_truncated none = false
pass_truncated (some n) = n.loaded.truncated

-- What loading a new pass adds to the totals.
unfoldable pub pass_totals : Option NewPass → Totals → Totals
pass_totals none t = t
pass_totals (some n) t = record t {
  new_dups = (t.new_dups + n.loaded.new_dups) % 2 ^ 64;
  created = later n.new_header.created t.created;
}

-- The state of the loop at the start of a shard: `clear(seen)`, and counters of its own.
unfoldable pub cleared : List Ent → Merging → Merging
cleared ents m = record m { ents = ents; seen = λ ip. false; old_total = 0; merged = 0 }

-- The end of the baseline's scan: any error is fatal.
unfoldable pub baseline_end :
    Outcome → Option (List Record × Merging) → Result MergeError (List Record × Merging)
baseline_end e none = err panicked
baseline_end finished (some done) = ok done
baseline_end e (some done) = err (bad_baseline e)

-- What the scan of the baseline reads behind `NewWriter`, which truncates an output that is the
-- baseline's own file to an empty header.
unfoldable pub scanned_old : (is_output : Bool) → Bytes → Bytes
scanned_old is_output old = if is_output then zeros header_size else old

-- `in_place` tells of a shard whether its output is the file of its baseline; the output is no file of
-- another shard.
module _ (z : Codec) (sort_slice : List Record → List Record) (in_place : ℕ → Bool) (mask : ℕ)
    (allow_partial : Bool) where
  unfoldable pub load_pass : Header → Option Bytes → Result MergeError (Option NewPass)
  load_pass old none = ok none
  load_pass old (some file) = do
    h ← file_header file
    l ← loaded_new (load_new_shard (scan z file))
    check_new allow_partial old h l

  unfoldable pub merge_shard :
      Bytes → Option Bytes → Totals → Result MergeError (ShardResult × Bytes × Totals)
  unfolding scanned_old
  merge_shard old new t = do
    h ← file_header old
    pass ← load_pass h new
    let (rs, e) = scan z (scanned_old (in_place h.shard_id) old)
    let t' = pass_totals pass t
    let m = cleared (pass_ents pass) t'.state
    (out, last) ← baseline_end e (merge_records (pass_arena pass) mask rs m)
    let w = new_writer h.shards h.shard_id (start_time h pass)
    ok (
      record {
        shard = h.shard_id;
        old_total = last.old_total;
        new_total = length (pass_ents pass);
        merged = last.merged;
        truncated = pass_truncated pass;
      },
      close z sort_slice (consume z sort_slice w out),
      record t' { state = last; unexpected = (t'.unexpected + unexpected_new last.ents) % 2 ^ 64 },
    )
