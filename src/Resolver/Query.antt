-- ===== src/Resolver/Query.antt =====
-- internal/resolver/resolver.go, `query`: one exchange after the other until a definitive answer.
pub mod Laws
use r_dns_crawler.Base.{
  ℕ, zero, suc, ◌+◌, Bool, ◌||◌, List, [], Option, some, none, Bytes, ◌==◌, if◌then◌else◌,
}
use r_dns_crawler.Resolver.{Resolver, pick}

-- An entry of the answer section: a PTR record, an A record or another one.
pub data Answer : Type 0 where
  ptr : Bytes → Answer
  a : Bytes → Answer
  other : Answer

pub record Message : Type 0 where
  pub rcode : ℕ
  pub answers : List Answer

-- What the classification asks of a transport error: whether it is one of the two deadline errors,
-- whether it is a `net.Error` that says it is a timeout, and its text.
pub record NetError : Type 0 where
  pub deadline_exceeded : Bool
  pub net_timeout : Bool
  pub text : Bytes

-- What `ExchangeContext` returns.
pub data Reply : Type 0 where
  answered : Message → Reply
  failed : NetError → Reply

-- `lastErr`: nothing yet, a transport error, or the text made of a soft rcode.
pub data LastError : Type 0 where
  nil : LastError
  transport : NetError → LastError
  soft_rcode : ℕ → LastError

abbrev pub rcode_success : ℕ
rcode_success = 0

abbrev pub rcode_server_failure : ℕ
rcode_server_failure = 2

abbrev pub rcode_name_error : ℕ
rcode_name_error = 3

abbrev pub rcode_not_implemented : ℕ
rcode_not_implemented = 4

abbrev pub rcode_refused : ℕ
rcode_refused = 5

unfoldable pub is_definitive : Message → Bool
is_definitive m = m.rcode == rcode_success || m.rcode == rcode_name_error

-- The four results of `query`: a response or an error, the server and the attempts.
pub record Queried : Type 0 where
  pub response : Option Message
  pub error : LastError
  pub server : Bytes
  pub attempts : ℕ

-- The code behind the loop.
unfoldable pub give_up : Option Message → LastError → Bytes → ℕ → Queried
give_up (some m) e server attempts = record {
  response = some m;
  error = nil;
  server = server;
  attempts = attempts;
}
give_up none e server attempts = record {
  response = none;
  error = e;
  server = server;
  attempts = attempts;
}

-- `tickets k` is what the k-th increment of the shared counter by this query returns: other
-- goroutines may increment it in between. `exchange k server` is the outcome of the k-th exchange.
unfoldable pub server_at : List Bytes → (ℕ → ℕ) → ℕ → Bytes
server_at servers tickets k = pick servers (tickets k) k

module _ (servers : List Bytes) (tickets : ℕ → ℕ) (exchange : ℕ → Bytes → Reply) where
  -- The loop, with so many rounds left.
  unfoldable pub query_loop : (left k : ℕ) → Option Message → LastError → Bytes → Queried
  query_loop zero k last_resp last_err server = give_up last_resp last_err server k
  query_loop (suc left) k last_resp last_err server =
      elim (exchange k (server_at servers tickets k)) [
        | failed e ↦ query_loop left (k + 1) last_resp (transport e) (server_at servers tickets k)
        | answered m ↦
            let retry =
              query_loop left (k + 1) (some m) (soft_rcode m.rcode) (server_at servers tickets k) in
            if is_definitive m
            then record {
              response = some m;
              error = nil;
              server = server_at servers tickets k;
              attempts = k + 1;
            }
            else retry
      ]

-- `query`: one attempt, and as many again as there are retries.
unfoldable pub query : Resolver → (ℕ → ℕ) → (ℕ → Bytes → Reply) → Queried
query r tickets exchange = query_loop r.servers tickets exchange (r.retries + 1) 0 none nil []
