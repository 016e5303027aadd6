-- ===== src/Cmd/Run/Laws.antt =====
-- cmd/rdns-crawler/main.go: from the addresses of a crawl to the file that it leaves, and what a
-- re-crawl leaves.
use mathlib.Core.List.{Permᴰ}
use mathlib.Core.List.Permᴰ
use r_dns_crawler.Base.{
  ℕ, ◌<◌, ◌^◌, ◌≡◌, refl, sym, ap, subst, Bool, false, List, [], ◌∷◌, Bytes, map, All,
}
use r_dns_crawler.Base.Results.{Result}
use r_dns_crawler.Model.Record.{Record}
use r_dns_crawler.Ipgen.Address.{int_to_ip, ip_to_int}
use r_dns_crawler.Ipgen.Address.Laws.{ip_to_int-int_to_ip}
use r_dns_crawler.Resolver.Query.{LastError}
use r_dns_crawler.Resolver.Lookup.{PtrResult}
use r_dns_crawler.Crawler.Process.{Observed, Stats, process}
use r_dns_crawler.Crawler.Pool.{Pool, Reachable}
use r_dns_crawler.Crawler.Pool.Laws.{Reachable-sent}
use r_dns_crawler.Store.Codec.{Codec}
use r_dns_crawler.Store.Block.{Rec, finished}
use r_dns_crawler.Store.Block.RoundTrip.{stored}
use r_dns_crawler.Store.Scan.{scan}
use r_dns_crawler.Store.Scan.Written.{IsBlock}
use r_dns_crawler.Store.Writer.{new_writer}
use r_dns_crawler.Store.Writer.Written.{chunks}
use r_dns_crawler.Store.Writer.RoundTrip.{scan-close}
use r_dns_crawler.Cmd.Sink.{rdnsz, bytes, pipeline}

-- A record that `process` made of its address.
pub record IsProcessed (parse_v6 : Bytes → Bytes) (r : Record) : Type 0 where
  pub answers : ℕ → Bytes → Result LastError (List Bytes)
  pub check : Bool
  pub found : PtrResult
  pub seen : Observed
  pub stats : Stats
  pub made : r ≡ (process parse_v6 answers check r.ip found seen stats).0

IsProcessed-number :
    (parse_v6 : Bytes → Bytes) (r : Record)
    → IsProcessed parse_v6 r
    → r.ip_int ≡ ip_to_int parse_v6 r.ip
unfolding process
IsProcessed-number parse_v6 r v = ap (λ q. q.ip_int) v.made

-- The addresses in numbers.
abbrev pub numbers : List Record → List ℕ
numbers = map (λ r. r.ip_int)

abbrev pub addresses : List Rec → List ℕ
addresses = map (λ r. r.ip)

numbers_read :
    (parse_v6 : Bytes → Bytes) (rs : List Record)
    → All (IsProcessed parse_v6) rs
    → numbers rs ≡ map (ip_to_int parse_v6) (map (λ r. r.ip) rs)
numbers_read parse_v6 [] v = refl
numbers_read parse_v6 (r ∷ rs) v =
    cc (IsProcessed-number parse_v6 r v.0, numbers_read parse_v6 rs v.1)

read_prints :
    (parse_v6 : Bytes → Bytes) (vs : List ℕ)
    → All (λ v. v < 2 ^ 32) vs
    → map (ip_to_int parse_v6) (map int_to_ip vs) ≡ vs
read_prints parse_v6 [] h = refl
read_prints parse_v6 (v ∷ vs) h =
    cc (ip_to_int-int_to_ip parse_v6 v h.0, read_prints parse_v6 vs h.1)

addresses-stored : (rs : List Record) → addresses (map stored rs) ≡ numbers rs
addresses-stored [] = refl
addresses-stored (r ∷ rs) = ap (λ l. r.ip_int ∷ l) (addresses-stored rs)

-- A crawl of the addresses `vs` that has ended and was not cancelled: the workers of the pool have
-- all returned, and `rs` are the records that they sent, each made by `process`.
pub record Crawled (parse_v6 : Bytes → Bytes) (workers : ℕ) (vs : List ℕ) (rs : List Record)
    : Type 0 where
  pub some_workers : 0 < workers
  pub ipv4 : All (λ v. v < 2 ^ 32) vs
  pub pool : Pool
  pub reached : Reachable workers (map int_to_ip vs) pool
  pub ended : pool.stopped ≡ workers
  pub running : pool.cancelled ≡ false
  pub its_records : Permᴰ (map (λ r. r.ip) rs) pool.sent
  pub processed : All (IsProcessed parse_v6) rs

Crawled-numbers :
    (parse_v6 : Bytes → Bytes) (workers : ℕ) (vs : List ℕ) (rs : List Record)
    → Crawled parse_v6 workers vs rs
    → Permᴰ (numbers rs) vs
Crawled-numbers parse_v6 workers vs rs v =
    let all_sent =
      Reachable-sent workers (map int_to_ip vs) v.pool v.some_workers v.reached v.ended v.running in
    let read : Permᴰ (map (ip_to_int parse_v6) (map (λ r. r.ip) rs))
        (map (ip_to_int parse_v6) (map int_to_ip vs)) =
      Permᴰ.map (ip_to_int parse_v6) (Permᴰ.trans v.its_records all_sent) in
    subst (λ l. Permᴰ l vs) (sym (numbers_read parse_v6 rs v.processed))
      (subst (λ l. Permᴰ (map (ip_to_int parse_v6) (map (λ r. r.ip) rs)) l)
        (read_prints parse_v6 vs v.ipv4) read)

module _ (z : Codec) (sort_slice : List Record → List Record)
    (sort_perm : (l : List Record) → Permᴰ (sort_slice l) l) where
  -- A crawl that has ended without a cancellation, whose blocks are storable and fit the block
  -- headers: `pipeline` leaves a .rdnsz file that scans to its end and has a record for each of the
  -- addresses that the generator emitted, as often as it did, and no other.
  pub pipeline_lem :
      (parse_v6 : Bytes → Bytes) (workers : ℕ) (vs : List ℕ) (rs : List Record)
      (shards shard_id now : ℕ)
      → Crawled parse_v6 workers vs rs
      → All (IsBlock z) (map sort_slice (chunks rs))
      → (file : Bytes) × (out : List Rec) × (pipeline z sort_slice
            (rdnsz (new_writer shards shard_id now))
            rs
          ≡ bytes file)
        × (scan z file ≡ (out, finished))
        × Permᴰ (addresses out) vs
  unfolding pipeline
  pipeline_lem parse_v6 workers vs rs shards shard_id now crawled fits =
      let (out, scanned, same) = scan-close z sort_slice sort_perm shards shard_id now rs fits in
      (
        _,
        out,
        refl,
        scanned,
        Permᴰ.trans
            (subst (λ l. Permᴰ (addresses out) l) (addresses-stored rs)
              (Permᴰ.map (λ r. r.ip) same))
            (Crawled-numbers parse_v6 workers vs rs crawled),
      )
