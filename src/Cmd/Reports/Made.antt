-- ===== src/Cmd/Reports/Made.antt =====
-- internal/crawler/crawler.go: the records that the crawler makes are ones that `dump` gives back.
use r_dns_crawler.Base.{
  ℕ, ◌<◌, ◌^◌, ◌≡◌, refl, sym, ap, Bool, true, false, List, [], ◌∷◌, Option, Bytes, if◌then◌else◌,
}
use r_dns_crawler.Base.Results.{Result}
use r_dns_crawler.Model.Status.{has_ptr}
use r_dns_crawler.Resolver.{Resolver}
use r_dns_crawler.Resolver.Query.{LastError, Reply}
use r_dns_crawler.Resolver.Lookup.{lookup_ptr}
use r_dns_crawler.Resolver.Lookup.Laws.{has_names, lookup_ptr_lem}
use r_dns_crawler.Ipgen.Address.{int_to_ip}
use r_dns_crawler.Ipgen.Address.Laws.{ip_to_int-int_to_ip}
use r_dns_crawler.Crawler.Process.{Observed, Stats, process}
use r_dns_crawler.Cmd.Reports.Laws.{IsCrawled}

all_or_none :
    (b : Bool) (names : List Bytes) → b ≡ has_names names → (if b then names else []) ≡ names
all_or_none true names h = refl
all_or_none false [] h = refl
all_or_none false (n ∷ names) h = absurd (cc)

-- Whatever the servers reply: the record that `process` makes of an IPv4 address and its PTR lookup has
-- its address printed, a known status, and names only with has_ptr.
pub process-IsCrawled :
    (parse_v6 : Bytes → Bytes) (reverse_addr : Bytes → Option Bytes) (r : Resolver)
    (tickets : ℕ → ℕ) (exchange : ℕ → Bytes → Reply)
    (lookup_a : ℕ → Bytes → Result LastError (List Bytes)) (check : Bool) (v : ℕ) (seen : Observed)
    (stats : Stats)
    → v < 2 ^ 32
    → IsCrawled
        (process parse_v6 lookup_a check
          (int_to_ip v)
          (lookup_ptr reverse_addr r tickets exchange (int_to_ip v))
          seen
          stats).0
unfolding process has_ptr
process-IsCrawled parse_v6 reverse_addr r tickets exchange lookup_a check v seen stats h =
    let (agrees, outcome) = (lookup_ptr_lem reverse_addr r tickets exchange (int_to_ip v)).0 in
    record {
      printed = sym (ap int_to_ip (ip_to_int-int_to_ip parse_v6 v h));
      known = (outcome.0, outcome.1);
      its_names = all_or_none _ _ agrees;
    }
