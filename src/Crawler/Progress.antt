-- ===== src/Crawler/Progress.antt =====
-- internal/crawler/crawler.go, `printProgress`: the interval and the line that it prints.
use r_dns_crawler.Base.{
  ℕ, ◌+◌, ◌*◌, ◌%◌, ◌^◌, Bool, not, ◌&&◌, [], ◌∷◌, ◌++◌, Bytes, codes, ltb, if◌then◌else◌,
}
use r_dns_crawler.Base.Floats.{Floats}
use r_dns_crawler.Base.Counters.{count_at}
use r_dns_crawler.Base.Decimal.{decimal}
use r_dns_crawler.Base.Report.{pieces}
use r_dns_crawler.Model.Status.{
  code_has_ptr, code_no_error_empty, code_nx_domain, code_serv_fail, code_refused, code_timeout,
  code_net_error,
}
use r_dns_crawler.Crawler.Process.{Stats}

-- In nanoseconds; `new` makes the interval positive.
unfoldable pub interval : (is_tty : Bool) → (progress_int : ℕ) → ℕ
interval is_tty progress_int =
    if not is_tty && ltb progress_int (30 * 10 ^ 9) then 30 * 10 ^ 9 else progress_int

-- A uint64 sum.
unfoldable pub fails : Stats → ℕ
fails s =
    (count_at code_serv_fail s.by_code
      + count_at code_refused s.by_code
      + count_at code_timeout s.by_code
      + count_at code_net_error s.by_code)
    % 2 ^ 64

-- The line without its end; `seconds` is the time since the start.
unfoldable pub progress_line : (fl : Floats) → (seconds : fl.Float) → Stats → Bytes
unfolding fails pieces
progress_line fl seconds s =
    let rate =
      if fl.is_positive seconds
      then fl.div (fl.of_uint64 s.processed) seconds
      else fl.of_uint64 0 in
    pieces (
      codes "[rdns] "
      ∷ decimal s.processed
      ∷ codes " done | "
      ∷ decimal (count_at code_has_ptr s.by_code)
      ∷ codes " ptr | "
      ∷ decimal (count_at code_no_error_empty s.by_code)
      ∷ codes " empty | "
      ∷ decimal (count_at code_nx_domain s.by_code)
      ∷ codes " nxdomain | "
      ∷ decimal (fails s)
      ∷ codes " fail | "
      ∷ fl.format 0 rate
      ∷ codes "/s"
      ∷ [])

-- What `print` writes: on a terminal the line is drawn again.
unfoldable pub print : (fl : Floats) → (is_tty : Bool) → (seconds : fl.Float) → Stats → Bytes
unfolding progress_line
print fl is_tty seconds s =
    let shown = progress_line fl seconds s in
    if is_tty then 13 ∷ (shown ++ codes "   ") else shown ++ (10 ∷ [])
