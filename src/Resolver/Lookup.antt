-- ===== src/Resolver/Lookup.antt =====
-- internal/resolver/resolver.go: `LookupPTR` and `LookupA`.
pub mod Laws
use r_dns_crawler.Base.{
  ℕ, ◌+◌, Bool, true, false, ◌||◌, List, [], ◌∷◌, ◌++◌, Option, some, none, Bytes, codes,
  strip_prefix, ◌==◌, if◌then◌else◌,
}
use r_dns_crawler.Base.Hosts.{trim_dot}
use r_dns_crawler.Base.Results.{Result, ok, err}
use r_dns_crawler.Model.Status.{
  status_error, status_has_ptr, status_no_error_empty, status_nx_domain, status_serv_fail,
  status_refused, status_net_error, status_timeout,
}
use r_dns_crawler.Resolver.{Resolver}
use r_dns_crawler.Resolver.Query.{
  Answer, ptr, a, other, Message, NetError, Reply, LastError, nil, transport, soft_rcode, Queried,
  query, rcode_success, rcode_server_failure, rcode_name_error, rcode_not_implemented,
  rcode_refused,
}

-- `strings.Contains`.
unfoldable pub contains : Bytes → Bytes → Bool
contains sep [] = elim (strip_prefix sep []) [ some rest ↦ true | none ↦ false ]
contains sep (c ∷ s) = elim (strip_prefix sep (c ∷ s)) [ some rest ↦ true | none ↦ contains sep s ]

-- `classifyErr`.
unfoldable pub classify_err : NetError → Bytes
classify_err e =
    if e.deadline_exceeded
    then status_timeout
    else if e.net_timeout
    then status_timeout
    else if contains (codes "timeout") e.text || contains (codes "i/o timeout") e.text
    then status_timeout
    else status_net_error

-- The text of a soft failure, `rcode=` and the name of the code, has no "timeout" in it.
unfoldable pub classify_last : LastError → Bytes
unfolding classify_err
classify_last (transport e) = classify_err e
classify_last (soft_rcode n) = status_net_error
classify_last nil = status_net_error

pub record PtrResult : Type 0 where
  pub names : List Bytes
  pub resolver : Bytes
  pub attempts : ℕ
  pub status : Bytes
  pub rcode : Option ℕ

-- The PTR names of the answer section, without the dot at the end.
unfoldable pub ptr_names : List Answer → List Bytes
ptr_names [] = []
ptr_names (ptr s ∷ as') = trim_dot s ∷ ptr_names as'
ptr_names (a ip ∷ as') = ptr_names as'
ptr_names (other ∷ as') = ptr_names as'

unfoldable pub success_status : List Bytes → Bytes
success_status [] = status_no_error_empty
success_status (n ∷ ns) = status_has_ptr

-- The `switch` on the rcode: the names and the status.
unfoldable pub classify : Message → List Bytes × Bytes
classify m =
    if m.rcode == rcode_success
    then (ptr_names m.answers, success_status (ptr_names m.answers))
    else if m.rcode == rcode_name_error
    then ([], status_nx_domain)
    else if m.rcode == rcode_server_failure
    then ([], status_serv_fail)
    else if m.rcode == rcode_refused || m.rcode == rcode_not_implemented
    then ([], status_refused)
    else ([], status_net_error)

unfoldable pub ptr_result : Queried → PtrResult
ptr_result q = elim q.response [
  | none ↦ record {
    names = [];
    resolver = q.server;
    attempts = q.attempts;
    status = classify_last q.error;
    rcode = none;
  }
  | some m ↦ record {
    names = (classify m).0;
    resolver = q.server;
    attempts = q.attempts;
    status = (classify m).1;
    rcode = some m.rcode;
  }
]

-- `LookupPTR`; `reverse_addr` is `dns.ReverseAddr`, which gives the name to ask for.
unfoldable pub lookup_ptr :
    (reverse_addr : Bytes → Option Bytes)
    → Resolver
    → (ℕ → ℕ)
    → (ℕ → Bytes → Reply)
    → Bytes
    → PtrResult
lookup_ptr reverse_addr r tickets exchange ip = elim (reverse_addr ip) [
  | none ↦ record { names = []; resolver = []; attempts = 0; status = status_error; rcode = none }
  | some arpa ↦ ptr_result (query r tickets exchange)
]

unfoldable pub a_addresses : List Answer → List Bytes
a_addresses [] = []
a_addresses (a ip ∷ as') = ip ∷ a_addresses as'
a_addresses (ptr s ∷ as') = a_addresses as'
a_addresses (other ∷ as') = a_addresses as'

-- `LookupA`.
unfoldable pub lookup_a : Resolver → (ℕ → ℕ) → (ℕ → Bytes → Reply) → Result LastError (List Bytes)
lookup_a r tickets exchange =
    let q = query r tickets exchange in
    elim q.response [ none ↦ err q.error | some m ↦ ok (a_addresses m.answers) ]
