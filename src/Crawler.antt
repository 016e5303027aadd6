-- ===== src/Crawler.antt =====
-- internal/crawler/crawler.go: the worker pool and the lookup of one address.
pub mod Process
pub mod Pool
pub mod Progress
use r_dns_crawler.Base.{ℕ, ◌^◌, Bool, if◌then◌else◌, ◌==◌}
use r_dns_crawler.Resolver.{ℤ, pos, negsuc}

-- `Config`; `progress_int` is a duration in nanoseconds. The files are left out.
pub record Config : Type 0 where
  pub concurrency : ℤ
  pub f_cr_dns : Bool
  pub qps : ℤ
  pub progress_int : ℤ

unfoldable pub or_default : ℕ → ℤ → ℤ
or_default d (pos n) = if n == 0 then pos d else pos n
or_default d (negsuc n) = pos d

-- `New`: at least one worker, and a progress line each second.
unfoldable pub new : Config → Config
unfolding or_default
new cfg = record cfg {
  concurrency = or_default 1 cfg.concurrency;
  progress_int = or_default (10 ^ 9) cfg.progress_int;
}
