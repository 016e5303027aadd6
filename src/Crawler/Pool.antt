-- ===== src/Crawler/Pool.antt =====
-- internal/crawler/crawler.go, `Run`: the workers between the channel of the addresses and that of
-- the records. A step is one worker's, or the cancellation of the context; the records are named by
-- their addresses, and waiting for a token of the rate limit is a part of the lookup. The steps are those of a
-- run that the ticker of the limit lets begin.
pub mod Laws
use mathlib.Core.List.{Permᴰ}
use mathlib.Core.List.Permᴰ
use r_dns_crawler.Base.{
  ℕ, zero, suc, ◌/◌, ◌^◌, ◌≡◌, ◌⊎◌, Bool, true, false, Option, some, none, List, [], ◌∷◌, ◌++◌,
  Bytes,
}
use r_dns_crawler.Resolver.{ℤ, pos, negsuc}

-- The addresses that were not received, are looked up, were sent and were given up; the workers that
-- wait on the channel and that have returned; and whether the context is cancelled.
pub record Pool : Type 0 where
  pub todo : List Bytes
  pub idle : ℕ
  pub flight : List Bytes
  pub sent : List Bytes
  pub dropped : List Bytes
  pub stopped : ℕ
  pub cancelled : Bool

-- The ticker of the rate limit, with its interval in nanoseconds: `time.NewTicker` panics on an
-- interval that is not positive.
pub data Limit : Type 0 where
  unlimited : Limit
  every : ℕ → Limit
  ticker_panics : Limit

unfoldable pub ticker : ℕ → Limit
ticker zero = ticker_panics
ticker (suc n) = every (suc n)

unfoldable pub limit : (qps : ℤ) → Limit
unfolding ticker
limit (pos zero) = unlimited
limit (pos (suc n)) = ticker (10 ^ 9 / suc n)
limit (negsuc n) = unlimited

-- `Run` with so many workers, from the first of them on.
unfoldable pub start : ℕ → List Bytes → Pool
start n ips = record {
  todo = ips;
  idle = n;
  flight = [];
  sent = [];
  dropped = [];
  stopped = 0;
  cancelled = false;
}

-- A step of a worker: `for ip := range ips`, the two cases of the `select` on `out`, of which the
-- second needs a cancelled context, and the end of the loop, when the channel is closed: it has no
-- address left, or its producer has stopped because of the context. Lookups end in any order.
pub data Work (s : Pool) : Pool → Type 0 where
  receive :
      {ip : Bytes} {rest : List Bytes} {n : ℕ}
      → s.todo ≡ ip ∷ rest
      → s.idle ≡ suc n
      → Work s (record s { todo = rest; idle = n; flight = ip ∷ s.flight })
  send :
      {ip : Bytes} {rest : List Bytes}
      → Permᴰ s.flight (ip ∷ rest)
      → Work s (record s { flight = rest; sent = ip ∷ s.sent; idle = suc s.idle })
  give_up :
      {ip : Bytes} {rest : List Bytes}
      → s.cancelled ≡ true
      → Permᴰ s.flight (ip ∷ rest)
      → Work s (record s { flight = rest; dropped = ip ∷ s.dropped; stopped = suc s.stopped })
  leave :
      {n : ℕ}
      → s.idle ≡ suc n
      → (s.todo ≡ []) ⊎ (s.cancelled ≡ true)
      → Work s (record s { idle = n; stopped = suc s.stopped })

-- How `Run` begins: no worker starts behind a ticker that panics.
unfoldable pub run : (qps : ℤ) → (workers : ℕ) → List Bytes → Option Pool
unfolding start limit
run qps n ips = elim (limit qps) [
  | ticker_panics ↦ none
  | unlimited ↦ some (start n ips)
  | every interval ↦ some (start n ips)
]

-- The states that a run of the pool reaches.
pub data Reachable (n : ℕ) (ips : List Bytes) : Pool → Type 0 where
  begin : Reachable n ips (start n ips)
  work : {s s' : Pool} → Reachable n ips s → Work s s' → Reachable n ips s'
  cancel : {s : Pool} → Reachable n ips s → Reachable n ips (record s { cancelled = true })
