-- ===== src/Cmd/Reports.antt =====
-- cmd/rdns-crawler/main.go: the numbers that `info` prints and the rows that `dump` prints.
pub mod Laws
pub mod Made
use r_dns_crawler.Base.{
  ℕ, ◌+◌, ◌%◌, ◌^◌, Bool, true, false, List, [], ◌∷◌, ◌++◌, Option, some, none, Bytes, join, ◌==◌,
  if◌then◌else◌,
}
use r_dns_crawler.Base.Counters.{count_at, zeros}
use r_dns_crawler.Base.Decimal.{decimal}
use r_dns_crawler.Model.Status.{num_status_codes, code_has_ptr, code_timeout, status_string}
use r_dns_crawler.Model.Record.{Record}
use r_dns_crawler.Ipgen.Address.{int_to_ip}
use r_dns_crawler.Store.Header.{Header}
use r_dns_crawler.Store.Block.{Rec}

-- `counts[i] += h.Counts[i]` for all `i`, in uint64.
unfoldable pub add_counts : List ℕ → List ℕ → List ℕ
add_counts [] other = []
add_counts (n ∷ counts) [] = n ∷ counts
add_counts (n ∷ counts) (k ∷ other) = ((n + k) % 2 ^ 64) ∷ add_counts counts other

pub record InfoTotals : Type 0 where
  pub total : ℕ
  pub counts : List ℕ

unfoldable pub sum_headers : InfoTotals → List Header → InfoTotals
sum_headers t [] = t
sum_headers t (h ∷ hs) =
    sum_headers
      (record { total = (t.total + h.total) % 2 ^ 64; counts = add_counts t.counts h.counts }) hs

-- The sums of `runInfo` over the headers of its files.
unfoldable pub info_totals : List Header → InfoTotals
unfolding sum_headers
info_totals hs = sum_headers (record { total = 0; counts = zeros num_status_codes }) hs

unfoldable pub recrawl_set : InfoTotals → ℕ
recrawl_set t = (count_at code_has_ptr t.counts + count_at code_timeout t.counts) % 2 ^ 64

-- What `runDump` prints for a record; a JSON row is the record that is encoded.
pub data Row : Type 0 where
  line : Bytes → Row
  json : Record → Row

unfoldable pub dump_record : Rec → Record
dump_record r = record {
  ip = int_to_ip r.ip;
  ip_int = r.ip;
  status = status_string r.status;
  ptr = r.ptr;
  f_cr_dns = if r.fc_checked then some r.fc_match else none;
  resolver = [];
  attempts = 0;
  latency_ms = 0;
  rcode = [];
  error = [];
  ts = [];
}

abbrev tab_line : Bytes → List Bytes → Row
tab_line ip ptr = line (ip ++ (9 ∷ (join ptr (b',' ∷ []) ++ (10 ∷ []))))

unfoldable pub dump_rows : (as_compact as_text : Bool) → Rec → List Row
unfolding dump_record
dump_rows true as_text r =
    if r.status == code_has_ptr then tab_line (decimal r.ip) r.ptr ∷ [] else []
dump_rows false true r =
    if r.status == code_has_ptr then tab_line (int_to_ip r.ip) r.ptr ∷ [] else []
dump_rows false false r = json (dump_record r) ∷ []

unfoldable pub dump : (as_compact as_text : Bool) → List Rec → List Row
dump as_compact as_text [] = []
dump as_compact as_text (r ∷ rs) = dump_rows as_compact as_text r ++ dump as_compact as_text rs
