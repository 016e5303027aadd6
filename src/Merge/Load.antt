-- ===== src/Merge/Load.antt =====
-- internal/merge/merge.go, `loadNewShard`: the table of the re-crawl.
use r_dns_crawler.Base.{
  ℕ, ◌+◌, bit_and, bit_or, Bool, true, false, List, [], ◌∷◌, ◌++◌, Bytes, length, take, drop, join,
  split, ltb, ◌==◌, if◌then◌else◌,
}
use r_dns_crawler.Base.Keyed.{dedup_by, sort_by}
use r_dns_crawler.Base.Results.{Result, ok, err, ◌>>=◌}
use r_dns_crawler.Model.Status.{code_has_ptr}
use r_dns_crawler.Store.Block.{Rec, Outcome, finished, failed, truncated_tail}

abbrev pub ent_status_mask : ℕ
ent_status_mask = 15

abbrev pub ent_fc_checked : ℕ
ent_fc_checked = 16

abbrev pub ent_fc_match : ℕ
ent_fc_match = 32

abbrev pub ent_used : ℕ
ent_used = 128

-- `newEnt`: its names are the bytes `name_off : name_off + name_len` of the arena.
pub record Ent : Type 0 where
  pub ip : ℕ
  pub sf : ℕ
  pub name_off : ℕ
  pub name_len : ℕ

unfoldable pub ent_flags : Rec → ℕ
ent_flags r =
    let sf = bit_and r.status ent_status_mask in
    if r.fc_checked
    then (let sf' = bit_or sf ent_fc_checked in if r.fc_match then bit_or sf' ent_fc_match else sf')
    else sf

pub data LoadError : Type 0 where
  arena_exceeded : LoadError
  scan_error : Outcome → LoadError

-- The callback of `Scan`: the entry and the arena behind it.
unfoldable pub load_record : Bytes → Rec → Result LoadError (Ent × Bytes)
load_record arena r =
    let joined = join r.ptr (0 ∷ []) in
    if r.status == code_has_ptr
    then (if ltb 4294967295 (length arena + length joined)
        then err arena_exceeded
        else ok (
          record { ip = r.ip; sf = ent_flags r; name_off = length arena; name_len = length joined },
          arena ++ joined,
        ))
    else ok (record { ip = r.ip; sf = ent_flags r; name_off = 0; name_len = 0 }, arena)

unfoldable pub load_records : Bytes → List Rec → Result LoadError (List Ent × Bytes)
load_records arena [] = ok ([], arena)
load_records arena (r ∷ rs) = do
  (e, arena') ← load_record arena r
  (es, arena'') ← load_records arena' rs
  ok (e ∷ es, arena'')

-- `slices.SortStableFunc` by address.
unfoldable pub sort_stable : List Ent → List Ent
sort_stable es = sort_by (λ e. e.ip) es

unfoldable pub dedup : List Ent → List Ent × ℕ
dedup es = dedup_by (λ e. e.ip) es

pub record Loaded : Type 0 where
  pub ents : List Ent
  pub arena : Bytes
  pub truncated : Bool
  pub new_dups : ℕ

unfoldable pub table : Bool → List Ent × Bytes → Loaded
unfolding sort_stable dedup
table truncated (es, arena) =
    let (kept, dups) = dedup (sort_stable es) in
    record { ents = kept; arena = arena; truncated = truncated; new_dups = dups }

unfoldable pub load_end : Outcome → List Ent × Bytes → Result LoadError Loaded
load_end finished loaded = ok (table false loaded)
load_end (failed truncated_tail) loaded = ok (table true loaded)
load_end e loaded = err (scan_error e)

-- `loadNewShard` on what `Scan` delivers of the new file.
unfoldable pub load_new_shard : List Rec × Outcome → Result LoadError Loaded
unfolding load_end
load_new_shard (rs, e) = load_records [] rs >>= load_end e

-- `strings.Split(string(arena[e.nameOff:e.nameOff+e.nameLen]), nameSep)`.
unfoldable pub ent_names : Bytes → Ent → List Bytes
ent_names arena e = split (take e.name_len (drop e.name_off arena)) 0
