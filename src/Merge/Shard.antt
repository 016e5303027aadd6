-- ===== src/Merge/Shard.antt =====
-- internal/merge/merge.go, `mergeShard`: the baseline streams against the table of the re-crawl.
pub mod Total
use r_dns_crawler.Base.{
  ℕ, zero, suc, ◌+◌, ◌-◌, ◌/◌, ◌%◌, ◌^◌, bit_and, bit_or, Bool, true, false, not, ◌||◌, List, [],
  ◌∷◌, ◌++◌, Option, some, none, Bytes, length, get_elem?, ltb, leb, ◌==◌, if◌then◌else◌,
}
use r_dns_crawler.Base.Counters.{bump_at}
use r_dns_crawler.Base.Keyed.{find_by}
use r_dns_crawler.Base.Results.{Result, ok, err}
use r_dns_crawler.Model.Record.{Record}
use r_dns_crawler.Model.Mask.{has}
use r_dns_crawler.Model.Status.{
  code_has_ptr, code_no_error_empty, code_nx_domain, num_status_codes, status_string,
}
use r_dns_crawler.Store.Block.{Rec}
use r_dns_crawler.Merge.Names.{hash_names}
use r_dns_crawler.Merge.Load.{
  Ent, ent_status_mask, ent_fc_checked, ent_fc_match, ent_used, ent_names,
}

-- `toRecord` and `entRecord`.
unfoldable pub to_record : Rec → Record
to_record r = record {
  ip = [];
  ip_int = r.ip;
  status = status_string r.status;
  ptr = r.ptr;
  f_cr_dns = if r.fc_checked then some r.fc_match else none;
  resolver = [];
  attempts = 0;
  latency_ms = 0;
  rcode = [];
  error = [];
  ts = [];
}

unfoldable pub ent_record : ℕ → Ent → List Bytes → Record
ent_record ip e names = record {
  ip = [];
  ip_int = ip;
  status = status_string (bit_and e.sf ent_status_mask);
  ptr = names;
  f_cr_dns =
      if bit_and e.sf ent_fc_checked == 0
      then none
      else some (not (bit_and e.sf ent_fc_match == 0));
  resolver = [];
  attempts = 0;
  latency_ms = 0;
  rcode = [];
  error = [];
  ts = [];
}

-- The entry of an address and its index, by `sort.Search`.
unfoldable pub find : List Ent → ℕ → Option (ℕ × Ent)
find ents ip = find_by (λ e. e.ip) ents ip

-- `e.sf |= entUsed` on the entry at the index.
unfoldable pub set_used : ℕ → List Ent → List Ent
set_used i [] = []
set_used zero (e ∷ es) = record e { sf = bit_or e.sf ent_used } ∷ es
set_used (suc i) (e ∷ es) = e ∷ set_used i es

-- What the loop over the baseline changes. `seen` is the bitmap, one bit for each address.
pub record Merging : Type 0 where
  pub ents : List Ent
  pub seen : ℕ → Bool
  pub merged_counts : List ℕ
  pub old_total : ℕ
  pub merged : ℕ
  pub gained : ℕ
  pub removed_auth : ℕ
  pub ptr_changed : ℕ
  pub ptr_unchanged : ℕ
  pub grace_kept : ℕ
  pub missing_kept : ℕ
  pub old_dups : ℕ

unfoldable pub mark : ℕ → (ℕ → Bool) → ℕ → Bool
mark ip seen i = if i == ip then true else seen i

-- `w.Add(rec)`, `mergedCounts[status]++` and `sr.Merged++`; an index outside the array panics
-- (`none`).
unfoldable pub write : Record → ℕ → Merging → Option (List Record × Merging)
write rec status m =
    if ltb status num_status_codes
    then some (
      rec ∷ [],
      record m { merged_counts = bump_at status m.merged_counts; merged = (m.merged + 1) % 2 ^ 64 },
    )
    else none

unfoldable pub write_old : Rec → Merging → Option (List Record × Merging)
unfolding write
write_old r m = write (to_record r) r.status m

module _ (arena : Bytes) where
  -- The counters of a new answer with names.
  unfoldable pub count_names : Rec → List Bytes → Merging → Merging
  count_names r names m =
      if r.status == code_has_ptr
      then (if hash_names r.ptr == hash_names names
          then record m { ptr_unchanged = (m.ptr_unchanged + 1) % 2 ^ 64 }
          else record m { ptr_changed = (m.ptr_changed + 1) % 2 ^ 64 })
      else record m { gained = (m.gained + 1) % 2 ^ 64 }

  -- The `switch` on the new status.
  unfoldable pub merge_ent : Rec → Ent → Merging → Option (List Record × Merging)
  unfolding write_old
  merge_ent r e m =
      let new_status = bit_and e.sf ent_status_mask in
      let names = ent_names arena e in
      if new_status == code_has_ptr
      then write (ent_record r.ip e names) code_has_ptr (count_names r names m)
      else if new_status == code_nx_domain || new_status == code_no_error_empty
      then write (ent_record r.ip e []) new_status (
          if r.status == code_has_ptr
          then record m { removed_auth = (m.removed_auth + 1) % 2 ^ 64 }
          else m)
      else if r.status == code_has_ptr
      then write_old r (record m { grace_kept = (m.grace_kept + 1) % 2 ^ 64 })
      else write (ent_record r.ip e []) new_status m

  unfoldable pub merge_found : Rec → Option (ℕ × Ent) → Merging → Option (List Record × Merging)
  merge_found r none m = write_old r (record m { missing_kept = (m.missing_kept + 1) % 2 ^ 64 })
  merge_found r (some (i, e)) m =
      merge_ent r (record e { sf = bit_or e.sf ent_used }) (record m { ents = set_used i m.ents })

  -- A record of an address that was not seen before.
  unfoldable pub merge_new : ℕ → Rec → Merging → Option (List Record × Merging)
  merge_new mask r m =
      if has mask r.status then merge_found r (find m.ents r.ip) m else write_old r m

  -- The callback of `Scan` on the baseline: what is written, and the state behind it.
  unfoldable pub merge_record : ℕ → Rec → Merging → Option (List Record × Merging)
  merge_record mask r m =
      if m.seen r.ip
      then some ([], record m { old_dups = (m.old_dups + 1) % 2 ^ 64 })
      else merge_new mask r
          (record m { seen = mark r.ip m.seen; old_total = (m.old_total + 1) % 2 ^ 64 })

  unfoldable pub merge_records : ℕ → List Rec → Merging → Option (List Record × Merging)
  merge_records mask [] m = some ([], m)
  merge_records mask (r ∷ rs) m = elim (merge_record mask r m) [
    | none ↦ none
    | some (out, m') ↦ elim (merge_records mask rs m') [
      | none ↦ none
      | some (outs, last) ↦ some (out ++ outs, last)
    ]
  ]

-- The last loop: the entries that no baseline record used.
unfoldable pub unexpected_new : List Ent → ℕ
unexpected_new [] = 0
unexpected_new (e ∷ es) =
    let rest = unexpected_new es in if bit_and e.sf ent_used == 0 then rest + 1 else rest
