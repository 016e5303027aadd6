-- ===== src/Cmd/Run/First.antt =====
-- cmd/rdns-crawler/main.go, `runCrawl`: the file that a whole crawl of a node leaves.
use mathlib.Core.List.{Permᴰ}
use r_dns_crawler.Base.{
  ℕ, ◌+◌, ◌-◌, ◌%◌, ◌<◌, ◌^◌, ◌≡◌, sym, ap, subst, ◌∙◌, false, inl, inr, List, some, Bytes, map,
  All, arith, bytes_eq, codes, take, leb, Bool-cases,
}
use r_dns_crawler.Base.Results.{ok, ok_injective, Result-cases, ◌>>=◌}
use r_dns_crawler.Model.Record.{Record}
use r_dns_crawler.Ipgen.Address.{ip_to_int}
use r_dns_crawler.Ipgen.Reserved.Laws.{picks}
use r_dns_crawler.Ipgen.Shard.{ShardConfig}
use r_dns_crawler.Ipgen.Walk.{Event, normalised, generate_sharded_full}
use r_dns_crawler.Ipgen.Walk.Sharded.{some_injective, emits, walk_end, wanted, quota}
use r_dns_crawler.Ipgen.Walk.Emitted.{generate_sharded_full_lem}
use r_dns_crawler.Resolver.{clamp}
use r_dns_crawler.Store.Codec.{Codec}
use r_dns_crawler.Store.Block.{Rec, finished}
use r_dns_crawler.Store.Scan.{scan}
use r_dns_crawler.Store.Scan.Written.{IsBlock}
use r_dns_crawler.Store.Writer.{new_writer}
use r_dns_crawler.Store.Writer.Written.{chunks}
use r_dns_crawler.Cmd.Cursor.{crawl_start}
use r_dns_crawler.Cmd.Setup.{crawl_setup}
use r_dns_crawler.Cmd.Sink.{rdnsz, bytes, new_sink, pipeline, out_path}
use r_dns_crawler.Cmd.Run.{
  Files, CommonFlags, Session, wrap, open_resolver, open_sink, setup, shard_given, run_crawl,
}
use r_dns_crawler.Cmd.Run.Laws.{Crawled, addresses, pipeline_lem}
use r_dns_crawler.Cmd.Run.Updated.{new_sink_rdnsz}

setup_sink :
    (c : CommonFlags) (files : Files) (mode stamp : Bytes) (now shards shard_id : ℕ) {s : Session}
    → bytes_eq c.format (codes "jsonl") ≡ false
    → setup c files mode stamp now shards shard_id false ≡ ok s
    → s.sink ≡ rdnsz (new_writer shards shard_id now)
unfolding setup wrap open_sink
setup_sink c files mode stamp now shards shard_id compact h =
    elim (Result-cases (open_resolver c files)) [
      | inr (e, bad) ↦ absurd (cc (rw (bad, ◌>>=◌) at h))
      | inl (res, opened) ↦
          elim (Result-cases (
            new_sink c.format (files (out_path c.out c.format mode stamp)) shards shard_id now
              false)) [
                | inr (e, bad) ↦ absurd (cc (rw (opened, ◌>>=◌, bad, wrap) at h))
                | inl (wr, created) ↦
                    ap (λ q. q.sink) (sym (ok_injective (rw (opened, ◌>>=◌, created, wrap) at h)))
                    ∙ new_sink_rdnsz c.format _ shards shard_id now compact created
              ]
    ]

-- The walk of a crawl that does not resume.
abbrev pub first_walk :
    (parse_v6 : Bytes → Bytes) → Bytes → (shards shard_id limit sample_threshold : ℕ) → ShardConfig
first_walk parse_v6 start_ip shards shard_id limit sample_threshold = record {
  shards = shards % 2 ^ 32;
  shard_id = shard_id % 2 ^ 32;
  start_ip = ip_to_int parse_v6 start_ip;
  limit = limit;
  sample_threshold = sample_threshold;
}

module _ (parse_v6 : Bytes → Bytes) (c : CommonFlags) (files : Files)
    (stamp stamp' start_ip : Bytes) (now shards shard_id limit sample_threshold fuel room : ℕ) where
  run_crawl_parts :
      {s : Session} {events : List Event}
      → bytes_eq c.format (codes "jsonl") ≡ false
      → run_crawl parse_v6 c files stamp stamp' start_ip now shards shard_id limit sample_threshold
          false fuel room
        ≡ ok (s, events)
      → (shard_id < shards)
        × (s.sink ≡ rdnsz (new_writer (shards % 2 ^ 16) (shard_id % 2 ^ 16) now))
        × (events
            ≡ generate_sharded_full fuel room
                (first_walk parse_v6 start_ip shards shard_id limit sample_threshold))
  unfolding run_crawl crawl_setup crawl_start
  run_crawl_parts {s} {events} compact h = elim (Bool-cases (leb shards shard_id)) [
    | inl outside ↦ absurd (cc (rw (outside, shard_given, ◌>>=◌) at h))
    | inr inside ↦
        let h1 = rw (inside, shard_given, ◌>>=◌) at h in
        elim (Result-cases
          (setup c files (codes "crawl") stamp' now (shards % 2 ^ 16) (shard_id % 2 ^ 16) false)) [
            | inr (e, bad) ↦ absurd (cc (rw (bad, ◌>>=◌) at h1))
            | inl (s', made) ↦
                let same = ok_injective (rw (made, ◌>>=◌) at h1) in
                (
                  ground arith,
                  ap (λ q. q.0.sink) (sym same)
                      ∙ setup_sink c files (codes "crawl") stamp' now _ _ compact made,
                  ap (λ q. q.1) (sym same),
                )
          ]
  ]

  -- A crawl without `--resume`, into a .rdnsz file, that starts from an address, with fuel for the rest
  -- of the address space: when the workers end on what the walk emitted and are not cancelled, and
  -- the blocks are storable and fit the block headers, then the shard was below the number of shards,
  -- and the file that the run leaves scans to its end and has exactly one record for each address at
  -- or above the start that is not reserved and belongs to the node, up to the limit and the `room`
  -- sends.
  pub run_crawl_lem :
      (z : Codec) (sort_slice : List Record → List Record)
      (sort_perm : (l : List Record) → Permᴰ (sort_slice l) l) (s : Session) (events : List Event)
      (vs : List ℕ) (records : List Record)
      → bytes_eq c.format (codes "jsonl") ≡ false
      → run_crawl parse_v6 c files stamp stamp' start_ip now shards shard_id limit sample_threshold
          false fuel room
        ≡ ok (s, events)
      → ip_to_int parse_v6 start_ip < 2 ^ 32
      → 2 ^ 32 < fuel + ip_to_int parse_v6 start_ip
      → emits events ≡ some vs
      → Crawled parse_v6 (clamp s.config.concurrency) vs records
      → All (IsBlock z) (map sort_slice (chunks records))
      → (shard_id < shards)
        × (file : Bytes) × (out : List Rec) × (pipeline z sort_slice s.sink records ≡ bytes file)
        × (scan z file ≡ (out, finished))
        × (let cfg =
              normalised (first_walk parse_v6 start_ip shards shard_id limit sample_threshold) in
            Permᴰ (addresses out) (
              take (quota cfg room 0) (
                picks
                  (wanted cfg)
                  (ip_to_int parse_v6 start_ip)
                  (walk_end - ip_to_int parse_v6 start_ip))))
  run_crawl_lem z sort_slice sort_perm s events vs records compact started small enough emitted
        crawled fits =
      let (inside, sink, walk) = run_crawl_parts compact started in
      let all =
        generate_sharded_full_lem fuel room
          (first_walk parse_v6 start_ip shards shard_id limit sample_threshold) small enough in
      let same_vs = some_injective (sym emitted ∙ ap emits walk ∙ all) in
      let (file, out, written, back, same) =
        pipeline_lem z sort_slice sort_perm parse_v6 _ vs records (shards % 2 ^ 16)
          (shard_id % 2 ^ 16) now crawled fits in
      (
        inside,
        file,
        out,
        ap (λ q. pipeline z sort_slice q records) sink ∙ written,
        back,
        subst (λ l. Permᴰ (addresses out) l) same_vs same,
      )
