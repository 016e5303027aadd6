-- ===== src/Ipgen/Sample.antt =====
-- internal/ipgen/ipgen.go, `SampleThresholdForPercent`.
use r_dns_crawler.Base.{
  ℕ, ◌-◌, ◌^◌, ◌<◌, ◌≡◌, inl, inr, refl, Bool, ◌||◌, ltb, ◌==◌, if◌then◌else◌, arith, Bool-cases,
}
use r_dns_crawler.Base.Floats.{Floats}

-- The thresholds between 1 and 2 ^ 32 - 1.
unfoldable pub bounded : ℕ → ℕ
bounded t = if t == 0 then 1 else if ltb (2 ^ 32 - 1) t then 2 ^ 32 - 1 else t

-- No percentage of the range in which sampling makes sense.
unfoldable pub is_off : (fl : Floats) → fl.Float → Bool
is_off fl percent = fl.le percent (fl.of_uint64 0) || fl.le (fl.of_uint64 100) percent

unfoldable pub sample_threshold_for_percent : (fl : Floats) → fl.Float → ℕ
unfolding bounded is_off
sample_threshold_for_percent fl percent =
    if is_off fl percent
    then 0
    else bounded (fl.to_uint64 (fl.mul (fl.div percent (fl.of_uint64 100)) (fl.of_uint64 (2 ^ 32))))

-- The threshold is a uint32, and it is 0, which disables sampling, exactly for a percentage that is
-- at most 0 or at least 100.
pub sample_threshold_lem :
    (fl : Floats) (percent : fl.Float)
    → (sample_threshold_for_percent fl percent < 2 ^ 32)
      × ((sample_threshold_for_percent fl percent == 0) ≡ is_off fl percent)
unfolding sample_threshold_for_percent
sample_threshold_lem fl percent = elim (Bool-cases (is_off fl percent)) [
  | inl off ↦ rw off (omega arith, refl)
  | inr on ↦ rw on (ground arith)
]
