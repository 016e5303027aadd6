-- ===== src/Model/Status.antt =====
-- internal/model/record.go: status strings, the compact codes and the two maps between them.
pub mod Laws
use r_dns_crawler.Base.{
  ℕ, Bool, List, [], ◌∷◌, Option, none, some, Bytes, codes, bytes_eq, ltb, get_elem?, if◌then◌else◌,
}

abbrev pub status_has_ptr : Bytes
status_has_ptr = codes "has_ptr"

abbrev pub status_no_error_empty : Bytes
status_no_error_empty = codes "noerror_empty"

abbrev pub status_nx_domain : Bytes
status_nx_domain = codes "nxdomain"

abbrev pub status_serv_fail : Bytes
status_serv_fail = codes "servfail"

abbrev pub status_refused : Bytes
status_refused = codes "refused"

abbrev pub status_timeout : Bytes
status_timeout = codes "timeout"

abbrev pub status_net_error : Bytes
status_net_error = codes "net_error"

-- An alias for callers that do not need the distinction.
abbrev pub status_error : Bytes
status_error = status_net_error

abbrev pub status_lame_delegation : Bytes
status_lame_delegation = codes "lame_delegation"

abbrev pub code_has_ptr : ℕ
code_has_ptr = 0

abbrev pub code_no_error_empty : ℕ
code_no_error_empty = 1

abbrev pub code_nx_domain : ℕ
code_nx_domain = 2

abbrev pub code_serv_fail : ℕ
code_serv_fail = 3

abbrev pub code_refused : ℕ
code_refused = 4

abbrev pub code_timeout : ℕ
code_timeout = 5

abbrev pub code_net_error : ℕ
code_net_error = 6

abbrev pub code_lame_delegation : ℕ
code_lame_delegation = 7

abbrev pub num_status_codes : ℕ
num_status_codes = 8

-- The array `codeToStatus`.
abbrev pub code_to_status : List Bytes
code_to_status =
    status_has_ptr ∷ status_no_error_empty ∷ status_nx_domain ∷ status_serv_fail ∷ status_refused
    ∷ status_timeout ∷ status_net_error ∷ status_lame_delegation ∷ []

-- A lookup in the map `statusToCode`, whose keys differ from one another.
unfoldable pub status_to_code : Bytes → Option ℕ
status_to_code s =
    if bytes_eq s status_has_ptr
    then some code_has_ptr
    else if bytes_eq s status_no_error_empty
    then some code_no_error_empty
    else if bytes_eq s status_nx_domain
    then some code_nx_domain
    else if bytes_eq s status_serv_fail
    then some code_serv_fail
    else if bytes_eq s status_refused
    then some code_refused
    else if bytes_eq s status_timeout
    then some code_timeout
    else if bytes_eq s status_net_error
    then some code_net_error
    else if bytes_eq s status_lame_delegation
    then some code_lame_delegation
    else none

-- `Code`: an unknown status counts as net_error.
unfoldable pub code : Bytes → ℕ
unfolding status_to_code
code s = elim (status_to_code s) [ some c ↦ c | none ↦ code_net_error ]

-- `StatusString`. Inside the bound the array read does not fail.
unfoldable pub status_string : ℕ → Bytes
status_string c =
    if ltb c num_status_codes
    then (elim (get_elem? code_to_status c) [ some s ↦ s | none ↦ [] ])
    else status_net_error

unfoldable pub has_ptr : Bytes → Bool
has_ptr s = bytes_eq s status_has_ptr
