-- ===== src/Compare/Load.antt =====
-- internal/compare/compare.go, `loadOldTargets` and `dedupSorted`: the targets of the previous pass.
use r_dns_crawler.Base.{ℕ, bit_or, List, [], ◌∷◌, ◌==◌, if◌then◌else◌}
use r_dns_crawler.Base.Keyed.{dedup_by}
use r_dns_crawler.Base.Results.{Result, ok, err}
use r_dns_crawler.Model.Mask.{has}
use r_dns_crawler.Model.Status.{code_has_ptr}
use r_dns_crawler.Merge.Names.{hash_names}
use r_dns_crawler.Store.Block.{Rec, Outcome, finished}

pub record OldEnt : Type 0 where
  pub ip : ℕ
  pub status : ℕ
  pub flags : ℕ
  pub hash : ℕ

abbrev pub f_fc_checked : ℕ
f_fc_checked = 1

abbrev pub f_fc_match : ℕ
f_fc_match = 2

abbrev pub f_seen : ℕ
f_seen = 4

unfoldable pub old_flags : Rec → ℕ
old_flags r =
    if r.fc_checked
    then (let flags = bit_or 0 f_fc_checked in
        if r.fc_match then bit_or flags f_fc_match else flags)
    else 0

unfoldable pub old_ent : Rec → OldEnt
unfolding old_flags
old_ent r = record {
  ip = r.ip;
  status = r.status;
  flags = old_flags r;
  hash = if r.status == code_has_ptr then hash_names r.ptr else 0;
}

-- What the callback appends for each record of the file.
unfoldable pub old_targets : ℕ → List Rec → List OldEnt
old_targets mask [] = []
old_targets mask (r ∷ rs) =
    let rest = old_targets mask rs in if has mask r.status then old_ent r ∷ rest else rest

-- `loadOldTargets` on what `Scan` delivers: any error of the scan is returned.
unfoldable pub load_old_targets : ℕ → List Rec × Outcome → Result Outcome (List OldEnt)
unfolding old_targets
load_old_targets mask (rs, finished) = ok (old_targets mask rs)
load_old_targets mask (rs, e) = err e

-- `dedupSorted`; a list of fewer than two entries is as it was.
unfoldable pub dedup_sorted : List OldEnt → List OldEnt × ℕ
dedup_sorted ents = dedup_by (λ e. e.ip) ents
