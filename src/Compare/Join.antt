-- ===== src/Compare/Join.antt =====
-- internal/compare/compare.go, `joinNewPass`: the new pass streams against the targets.
pub mod Cells
pub mod Counted
pub mod Laws
use r_dns_crawler.Base.{
  ℕ, zero, suc, ◌+◌, ◌%◌, ◌^◌, bit_and, bit_or, Bool, true, false, not, ◌&&◌, List, [], ◌∷◌, Option,
  some, none, Bytes, ltb, ◌==◌, if◌then◌else◌, map,
}
use r_dns_crawler.Base.Counters.{bump_at}
use r_dns_crawler.Base.Hosts.{tld_of, bump_keys}
use r_dns_crawler.Base.Keyed.{find_by}
use r_dns_crawler.Model.Status.{code_has_ptr, num_status_codes}
use r_dns_crawler.Merge.Names.{hash_names}
use r_dns_crawler.Store.Block.{Rec}
use r_dns_crawler.Compare.Load.{OldEnt, f_fc_checked, f_fc_match, f_seen}

abbrev pub missing_col : ℕ
missing_col = num_status_codes

-- `FCStats` and `GainedStats` without its histogram.
pub record FcStats : Type 0 where
  pub both_checked : ℕ
  pub match_both : ℕ
  pub match_old_only : ℕ
  pub match_new_only : ℕ
  pub match_neither : ℕ

pub record GainedStats : Type 0 where
  pub total : ℕ
  pub fc_checked : ℕ
  pub fc_match : ℕ

-- What the callback of `Scan` changes.
pub record Joining : Type 0 where
  pub ents : List OldEnt
  pub matrix : List (List ℕ)
  pub ptr_unchanged : ℕ
  pub ptr_changed : ℕ
  pub fc : FcStats
  pub gained : GainedStats
  pub tlds : List (Bytes × ℕ)
  pub new_dup_records : ℕ
  pub unexpected_new : ℕ

-- `matrix[i][j]++` on eight rows of nine columns; an index outside panics (`none`).
unfoldable pub bump_row : ℕ → ℕ → List (List ℕ) → List (List ℕ)
bump_row i j [] = []
bump_row zero j (row ∷ rows) = bump_at j row ∷ rows
bump_row (suc i) j (row ∷ rows) = row ∷ bump_row i j rows

unfoldable pub bump_cell : ℕ → ℕ → List (List ℕ) → Option (List (List ℕ))
unfolding bump_row
bump_cell i j matrix =
    if ltb i num_status_codes && ltb j (num_status_codes + 1)
    then some (bump_row i j matrix)
    else none

abbrev up : ℕ → ℕ
up n = (n + 1) % 2 ^ 64

abbrev pub bit : ℕ → ℕ → Bool
bit flags f = not (bit_and flags f == 0)

-- The `switch` on the two checks.
unfoldable pub count_checks : Bool → Bool → FcStats → FcStats
count_checks old new fc =
    let fc' = record fc { both_checked = up fc.both_checked } in
    if old && new
    then record fc' { match_both = up fc.match_both }
    else if old
    then record fc' { match_old_only = up fc.match_old_only }
    else if new
    then record fc' { match_new_only = up fc.match_new_only }
    else record fc' { match_neither = up fc.match_neither }

-- A target with names that still has names.
unfoldable pub count_kept : OldEnt → Rec → Joining → Joining
unfolding count_checks
count_kept e r s =
    let s' =
      if e.hash == hash_names r.ptr
      then record s { ptr_unchanged = up s.ptr_unchanged }
      else record s { ptr_changed = up s.ptr_changed } in
    if bit e.flags f_fc_checked && r.fc_checked
    then record s' { fc = count_checks (bit e.flags f_fc_match) r.fc_match s.fc }
    else s'

unfoldable pub gained_checks : Rec → GainedStats → GainedStats
gained_checks r g =
    let g' = record g { total = up g.total } in
    if r.fc_checked
    then (let g'' = record g' { fc_checked = up g.fc_checked } in
        if r.fc_match then record g'' { fc_match = up g.fc_match } else g'')
    else g'

-- A target without names that has names now.
unfoldable pub count_gained : Rec → Joining → Joining
unfolding gained_checks
count_gained r s = record s {
  gained = gained_checks r s.gained;
  tlds = bump_keys (map tld_of r.ptr) s.tlds;
}

unfoldable pub count_answer : OldEnt → Rec → Joining → Joining
unfolding count_kept count_gained
count_answer e r s =
    if r.status == code_has_ptr
    then (if e.status == code_has_ptr then count_kept e r s else count_gained r s)
    else s

-- `e.flags |= fSeen` on the entry at the index.
unfoldable pub set_seen : ℕ → List OldEnt → List OldEnt
set_seen i [] = []
set_seen zero (e ∷ es) = record e { flags = bit_or e.flags f_seen } ∷ es
set_seen (suc i) (e ∷ es) = e ∷ set_seen i es

unfoldable pub join_found : Rec → Option (ℕ × OldEnt) → Joining → Option Joining
join_found r none s = some (record s { unexpected_new = up s.unexpected_new })
join_found r (some (i, e)) s =
    if bit e.flags f_seen
    then some (record s { new_dup_records = up s.new_dup_records })
    else (elim (bump_cell e.status r.status s.matrix) [
      | none ↦ none
      | some matrix ↦ some (
          count_answer (record e { flags = bit_or e.flags f_seen }) r
            (record s { ents = set_seen i s.ents; matrix = matrix }))
    ])

-- The callback of `Scan`, and its runs over the records of the file.
unfoldable pub join_record : Rec → Joining → Option Joining
join_record r s = join_found r (find_by (λ e. e.ip) s.ents r.ip) s

unfoldable pub join_records : List Rec → Joining → Option Joining
join_records [] s = some s
join_records (r ∷ rs) s = elim (join_record r s) [ none ↦ none | some s' ↦ join_records rs s' ]

-- The loop of `Run` behind it: the targets that were never observed.
unfoldable pub count_missing : List OldEnt → List (List ℕ) → Option (List (List ℕ))
count_missing [] matrix = some matrix
count_missing (e ∷ es) matrix = elim (bit e.flags f_seen) [
  | true ↦ count_missing es matrix
  | false ↦ elim (bump_cell e.status missing_col matrix) [
    | none ↦ none
    | some matrix' ↦ count_missing es matrix'
  ]
]
