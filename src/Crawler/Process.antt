-- ===== src/Crawler/Process.antt =====
-- internal/crawler/crawler.go, `process`: one address becomes a record.
pub mod Laws
use r_dns_crawler.Base.{
  ℕ, suc, ◌+◌, ◌%◌, ◌^◌, Bool, true, false, ◌&&◌, ◌||◌, List, [], ◌∷◌, Option, some, none, Bytes,
  if◌then◌else◌,
}
use r_dns_crawler.Base.Counters.{bump_at}
use r_dns_crawler.Base.Results.{Result, ok, err}
use r_dns_crawler.Model.Record.{Record}
use r_dns_crawler.Model.Status.{code, has_ptr}
use r_dns_crawler.Ipgen.Address.{ip_equal, parse_ip, ip_to_int}
use r_dns_crawler.Resolver.Query.{LastError}
use r_dns_crawler.Resolver.Lookup.{PtrResult}

-- What the record takes from the clock, and the texts of the rcode and of the error.
pub record Observed : Type 0 where
  pub latency_ms : ℕ
  pub rcode : Bytes
  pub error : Bytes
  pub ts : Bytes

-- The loop over the addresses of a name.
unfoldable pub any_equal : Bytes → List Bytes → Bool
any_equal target [] = false
any_equal target (a ∷ addrs) = ip_equal a target || any_equal target addrs

-- The loop over the names: `lookup_a k name` is what `LookupA` returns for the k-th name.
unfoldable pub confirms :
    (lookup_a : ℕ → Bytes → Result LastError (List Bytes)) → Bytes → ℕ → List Bytes → Bool
confirms lookup_a target k [] = false
confirms lookup_a target k (name ∷ names) = elim (lookup_a k name) [
  | err e ↦ confirms lookup_a target (k + 1) names
  | ok addrs ↦ elim (any_equal target addrs) [
    | true ↦ true
    | false ↦ confirms lookup_a target (k + 1) names
  ]
]

-- The counters of the crawler, int64 as bit patterns.
pub record Stats : Type 0 where
  pub processed : ℕ
  pub by_code : List ℕ

unfoldable pub tally : Bytes → Stats → Stats
tally status s = record {
  processed = (s.processed + 1) % 2 ^ 64;
  by_code = bump_at (code status) s.by_code;
}

-- `process` for the result of `LookupPTR`; `check` is `cfg.FCrDNS`.
unfoldable pub process :
    (parse_v6 : Bytes → Bytes)
    → (lookup_a : ℕ → Bytes → Result LastError (List Bytes)) → (check : Bool) → Bytes
    → PtrResult
    → Observed
    → Stats
    → Record × Stats
unfolding tally
process parse_v6 lookup_a check ip ptr seen stats = (
  record {
    ip = ip;
    ip_int = ip_to_int parse_v6 ip;
    status = ptr.status;
    ptr = ptr.names;
    f_cr_dns =
        if check && has_ptr ptr.status
        then some (confirms lookup_a (parse_ip parse_v6 ip) 0 ptr.names)
        else none;
    resolver = ptr.resolver;
    attempts = ptr.attempts;
    latency_ms = seen.latency_ms;
    rcode = seen.rcode;
    error = seen.error;
    ts = seen.ts;
  },
  tally ptr.status stats,
)
