-- ===== src/Model/Status/Laws.antt =====
-- internal/model/record.go: the maps between status strings and codes.
use r_dns_crawler.Base.{
  ℕ, ◌<◌, ◌≡◌, refl, true, some, Bytes, bytes_eq, bytes_eq→eq, arith, ==→eq, ◌==◌,
}
use r_dns_crawler.Base.Tables.{all_below, all_below→holds}
use r_dns_crawler.Model.Status.{
  num_status_codes, code_has_ptr, status_net_error, status_has_ptr, status_no_error_empty,
  status_nx_domain, status_serv_fail, status_refused, status_timeout, status_lame_delegation,
  status_to_code, code, status_string, has_ptr,
}

code-status_string_table : all_below 8 (λ c. code (status_string c) == c) ≡ true
unfolding all_below code status_string bytes_eq
code-status_string_table = refl

-- Each of the eight codes is read back from its string.
pub code-status_string : (c : ℕ) → c < num_status_codes → code (status_string c) ≡ c
code-status_string c h =
    ==→eq _ c (all_below→holds 8 (λ c. code (status_string c) == c) code-status_string_table c h)

pub status_to_code-some :
    (s : Bytes) (c : ℕ) → status_to_code s ≡ some c → (c < num_status_codes) × (status_string c ≡ s)
unfolding status_to_code status_string
status_to_code-some s c h = ground (
  arith,
  bytes_eq→eq s status_has_ptr,
  bytes_eq→eq s status_no_error_empty,
  bytes_eq→eq s status_nx_domain,
  bytes_eq→eq s status_serv_fail,
  bytes_eq→eq s status_refused,
  bytes_eq→eq s status_timeout,
  bytes_eq→eq s status_net_error,
  bytes_eq→eq s status_lame_delegation,
)

pub code-lt : (s : Bytes) → code s < num_status_codes
unfolding code status_to_code
code-lt s = ground arith

-- The code 0 belongs to the string "has_ptr" alone, so the two tests for a hit agree.
pub has_ptr-code : (s : Bytes) → (code s == code_has_ptr) ≡ has_ptr s
unfolding code status_to_code has_ptr
has_ptr-code s = ground arith
