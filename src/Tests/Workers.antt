-- ===== src/Tests/Workers.antt =====
-- internal/crawler and internal/ipgen: the pool and the lookup of an address at concrete inputs.
use mathlib.Core.List.{Permᴰ}
use mathlib.Core.List.Permᴰ
use r_dns_crawler.Base.{
  ℕ, ◌≤◌, ◌≡◌, ◌⊎◌, ◌↔◌, refl, inl, Bool, true, false, ◌&&◌, List, [], ◌∷◌, some, none, Bytes,
  codes, length, arith, All,
}
use r_dns_crawler.Base.Counters.{zeros}
use r_dns_crawler.Base.Results.{Result, ok}
use r_dns_crawler.Model.Status.{has_ptr}
use r_dns_crawler.Ipgen.Reserved.{is_reserved, in_any}
use r_dns_crawler.Ipgen.Walk.Sharded.{emits, min}
use r_dns_crawler.Ipgen.Address.{int_to_ip, parse_ip}
use r_dns_crawler.Ipgen.Random.{generate_random}
use r_dns_crawler.Ipgen.Random.Laws.{fresh, Distinct, generate_random_lem}
use r_dns_crawler.Resolver.{Resolver}
use r_dns_crawler.Resolver.Query.{ptr, Message, Reply, answered, LastError}
use r_dns_crawler.Resolver.Lookup.{lookup_ptr}
use r_dns_crawler.Resolver.Lookup.Laws.{has_names}
use r_dns_crawler.Crawler.Process.{Observed, Stats, process}
use r_dns_crawler.Crawler.Process.Laws.{Confirmed, process_lem}
use r_dns_crawler.Crawler.Pool.{Pool, Work, receive, send, leave, Reachable, begin, work, start}
use r_dns_crawler.Crawler.Pool.Laws.{
  accounted, Reachable-bounds, Runs, stay, step, measure, Reachable-ends,
}

-- Two routable addresses, one of them twice, and a reserved one.
abbrev draws : List ℕ
draws = 16843009 ∷ 167772161 ∷ 16843009 ∷ 134744072 ∷ []

enough_draws : 2 ≤ length (fresh [] draws)
unfolding is_reserved in_any
enough_draws = omega arith

generate_random_lem_example :
    (vs : List ℕ) × (emits (generate_random 9 2 draws) ≡ some vs)
    × (length vs ≡ min 9 2)
    × Distinct vs
    × All (λ v. is_reserved v ≡ false) vs
generate_random_lem_example = generate_random_lem 9 2 draws enough_draws

abbrev client : Resolver
client = record { servers = codes "1.1.1.1:53" ∷ []; retries = 1 }

abbrev found : Message
found = record { rcode = 0; answers = ptr (codes "a.b.") ∷ [] }

abbrev replies : ℕ → Bytes → Reply
replies k server = answered found

abbrev addresses : ℕ → Bytes → Result LastError (List Bytes)
addresses k name = ok ((1 ∷ 2 ∷ 3 ∷ 4 ∷ []) ∷ [])

abbrev observed : Observed
observed = record { latency_ms = 5; rcode = codes "NOERROR"; error = []; ts = codes "now" }

abbrev stats : Stats
stats = record { processed = 0; by_code = zeros 8 }

process_lem_example :
    let ip = int_to_ip 16909060 in
    let rec =
      (process
        (λ s. [])
        addresses
        true
        ip
        (lookup_ptr (λ s. some s) client (λ k. k) replies ip)
        observed
        stats).0 in
    (rec.ip_int ≡ 16909060)
    × (has_ptr rec.status ≡ has_names rec.ptr)
    × ((((true && has_names rec.ptr) ≡ false) × (rec.f_cr_dns ≡ none))
        ⊎ (((true && has_names rec.ptr) ≡ true)
            × (b : Bool) × (rec.f_cr_dns ≡ some b)
            × ((b ≡ true) ↔ Confirmed addresses (parse_ip (λ s. []) ip) 0 rec.ptr)))
process_lem_example =
    process_lem (λ s. []) addresses true (λ s. some s) client (λ k. k) replies observed stats
      16909060 (omega arith)

-- One worker and one address: it is received, sent, and the worker returns.
abbrev ips : List Bytes
ips = codes "1.1.1.1" ∷ []

abbrev looking : Pool
looking = record (start 1 ips) { todo = []; idle = 0; flight = ips }

abbrev done : Pool
done = record looking { flight = []; sent = ips; idle = 1 }

abbrev ended : Pool
ended = record done { idle = 0; stopped = 1 }

looking-Reachable : Reachable 1 ips looking
unfolding start
looking-Reachable = work begin (receive refl refl)

ended-Runs : Runs 2 looking ended
unfolding start
ended-Runs = step (send (Permᴰ.refl ips)) (step (leave refl (inl refl)) stay)

ended-Reachable : Reachable 1 ips ended
unfolding start
ended-Reachable = work (work looking-Reachable (send (Permᴰ.refl ips))) (leave refl (inl refl))

Reachable-bounds_example : (length looking.flight ≤ 1) × Permᴰ (accounted looking) ips
Reachable-bounds_example = Reachable-bounds 1 ips looking looking-Reachable

ended_stopped : ended.stopped ≡ 1
unfolding start
ended_stopped = refl

ended_running : ended.cancelled ≡ false
unfolding start
ended_running = refl

Reachable-ends_example :
    (2 ≤ measure looking) × ((ended.stopped ≡ 1) ⊎ ((s'' : Pool) × Work ended s''))
Reachable-ends_example = Reachable-ends 1 ips looking ended 2 looking-Reachable ended-Runs
