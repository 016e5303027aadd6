-- ===== src/Model/Record.antt =====
-- internal/model/record.go, the `Record` struct.
use r_dns_crawler.Base.{ℕ, Bool, List, Option, Bytes}

-- One crawled address and its reverse-DNS result. `f_cr_dns` is nil (`none`) when forward
-- confirmation was not checked. Times and latencies are the numbers that the source prints.
pub record Record : Type 0 where
  pub ip : Bytes
  pub ip_int : ℕ
  pub status : Bytes
  pub ptr : List Bytes
  pub f_cr_dns : Option Bool
  pub resolver : Bytes
  pub attempts : ℕ
  pub latency_ms : ℕ
  pub rcode : Bytes
  pub error : Bytes
  pub ts : Bytes
