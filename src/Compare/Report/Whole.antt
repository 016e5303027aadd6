-- ===== src/Compare/Report/Whole.antt =====
-- internal/compare/compare.go, `RenderText`: the report as a whole.
use r_dns_crawler.Base.{
  ℕ, ◌+◌, ◌-◌, ◌%◌, ◌^◌, List, [], ◌∷◌, ◌++◌, Bytes, codes, map, flat_map, length, ltb, leb, ◌==◌,
  not, if◌then◌else◌,
}
use r_dns_crawler.Base.Floats.{Floats}
use r_dns_crawler.Base.Report.{Part, line, table, utf8, says, ints, rule, when}
use r_dns_crawler.Model.Mask.{string}
use r_dns_crawler.Model.Status.{
  num_status_codes, status_has_ptr, status_timeout, status_nx_domain, status_no_error_empty,
}
use r_dns_crawler.Merge.Group.{group}
use r_dns_crawler.Compare.Run.{Comparison, PassInfo}
use r_dns_crawler.Compare.Final.{Headline, headline, value_at, transitions, top_tlds}
use r_dns_crawler.Compare.Report.{
  row_at, sorted_status_keys, pct_of, render_row, pass_lines, previously, timeout_part, other_part,
}

-- `lostAuth`: the targets that had names and now authoritatively have none.
unfoldable pub lost_auth : List (Bytes × List (Bytes × ℕ)) → ℕ
unfolding row_at
lost_auth rows =
    let hp = row_at status_has_ptr rows in
    (value_at status_nx_domain hp + value_at status_no_error_empty hp) % 2 ^ 64

unfoldable pub net_line : (gained lost : ℕ) → Part
net_line gained lost =
    if leb lost gained
    then says (codes "    = net +" ∷ group (gained - lost) ∷ [])
    else says (codes "    = net -" ∷ group (lost - gained) ∷ [])

unfoldable pub net_part : (gained lost : ℕ) → List Part
unfolding net_line
net_part gained lost =
    line []
    ∷ line (codes "  Net PTR movement (crawled targets only):")
    ∷ says (
        codes "    + "
        ∷ group gained
        ∷ codes " PTRs gained from previously non-resolving targets"
        ∷ [])
    ∷ says (
        codes "    - "
        ∷ group lost
        ∷ codes " PTRs authoritatively removed from the has_ptr set"
        ∷ [])
    ∷ net_line gained lost
    ∷ []

unfoldable pub tld_part : List (Bytes × ℕ) → List Part
tld_part [] = []
tld_part (t ∷ tlds) =
    line []
    ∷ line (codes "  Top TLDs of gained PTRs:")
    ∷ table (map (λ it. (codes "    ." ++ it.0) ∷ group it.1 ∷ []) (t ∷ tlds))
    ∷ []

unfoldable pub oddities : Comparison → List Part
oddities c =
    when (ltb 0 ((c.old_dup_targets + c.state.new_dup_records + c.state.unexpected_new) % 2 ^ 64)) (
      line []
      ∷ says (
          codes "  Bookkeeping: "
          ∷ group c.old_dup_targets
          ∷ codes " dup old targets | "
          ∷ group c.state.new_dup_records
          ∷ codes " dup new records | "
          ∷ group c.state.unexpected_new
          ∷ codes " new records outside target set"
          ∷ [])
      ∷ [])

unfoldable pub warnings : Comparison → List Part
warnings c =
    when (not (length c.missing_new_shards == 0)) (
      says (
        codes "  WARNING: no new file for old shards "
        ∷ ints c.missing_new_shards
        ∷ utf8 " — their targets are excluded"
        ∷ [])
      ∷ [])
    ++ when (not (length c.truncated_new_shards == 0)) (
        says (
          codes "  NOTE: new shards "
          ∷ ints c.truncated_new_shards
          ∷ codes " were truncated (collected mid-crawl); partial data compared"
          ∷ [])
        ∷ [])

module _ (fl : Floats) (sort_counts : List (Bytes × ℕ) → List (Bytes × ℕ)) (date : ℕ → Bytes) where
  unfoldable pub has_ptr_part : Comparison → Headline fl → List (Bytes × ℕ) → List Part
  unfolding previously render_row pct_of
  has_ptr_part c h cells =
      let fc = c.state.fc in
      when (ltb 0 h.has_ptr_targets) (
        previously fl sort_counts date (codes "HAS_PTR") h.has_ptr_targets h.has_ptr_crawled
        ++ (render_row fl sort_counts date cells h.has_ptr_crawled
            ∷ says (
                utf8 "    → unchanged PTR    "
                ∷ group c.state.ptr_unchanged
                ∷ codes " ("
                ∷ fl.format 2 h.ptr_unchanged_pct
                ∷ codes "%)"
                ∷ [])
            ∷ says (
                utf8 "    → changed PTR      "
                ∷ group c.state.ptr_changed
                ∷ codes " ("
                ∷ fl.format 2 h.ptr_changed_pct
                ∷ utf8 "%)  ≈ "
                ∷ fl.format 4 h.changed_per_day_pct
                ∷ codes "%/day churn"
                ∷ [])
            ∷ says (
                utf8 "    → PTR removed      "
                ∷ fl.format 2 h.ptr_removed_pct
                ∷ codes "% (authoritative nxdomain/noerror_empty)"
                ∷ [])
            ∷ says (
                utf8 "    → transient fail   "
                ∷ fl.format 2 h.ptr_transient_pct
                ∷ codes "% (timeout/servfail/refused/net_error)"
                ∷ [])
            ∷ when (ltb 0 fc.both_checked) (
                says (
                  utf8 "    → FCrDNS (both passes checked, "
                  ∷ group fc.both_checked
                  ∷ codes " IPs): "
                  ∷ pct_of fl fc.match_both fc.both_checked
                  ∷ codes " stayed confirmed, "
                  ∷ pct_of fl fc.match_old_only fc.both_checked
                  ∷ codes " lost, "
                  ∷ pct_of fl fc.match_new_only fc.both_checked
                  ∷ codes " gained confirmation"
                  ∷ [])
                ∷ [])))

  -- `n` is `TopTLDs`, `days` is `DaysBetween`.
  unfoldable pub render_text :
      (mask n : ℕ)
      → (old_path new_path : Bytes) → (days : fl.Float) → PassInfo
      → PassInfo
      → Comparison
      → List Part
  unfolding has_ptr_part timeout_part other_part pass_lines sorted_status_keys lost_auth net_part
      tld_part oddities warnings
  render_text mask n old_path new_path days old new c =
      let h = headline fl days c in
      let rows = transitions mask 0 num_status_codes c.state.matrix in
      (rule 72 ∷ line (codes "  rDNS re-crawl comparison") ∷ rule 72 ∷ [])
      ++ pass_lines fl sort_counts date (codes "  old pass: ") old_path old
      ++ pass_lines fl sort_counts date (codes "  new pass: ") new_path new
      ++ (says (
            codes "  passes are "
            ∷ fl.format 1 days
            ∷ codes " days apart | target set: "
            ∷ string mask
            ∷ [])
          ∷ [])
      ++ warnings c
      ++ timeout_part fl sort_counts date c h (row_at status_timeout rows)
      ++ flat_map (other_part fl sort_counts date c rows) (sorted_status_keys c.targets)
      ++ has_ptr_part c h (row_at status_has_ptr rows)
      ++ net_part c.state.gained.total (lost_auth rows)
      ++ tld_part (top_tlds sort_counts n c.state.tlds)
      ++ oddities c
      ++ (rule 72 ∷ [])
