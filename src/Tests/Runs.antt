-- ===== src/Tests/Runs.antt =====
-- cmd/rdns-crawler: a crawl and a re-crawl of one address, from the flags to the file.
use mathlib.Core.List.{Permᴰ}
use mathlib.Core.List.Permᴰ
use r_dns_crawler.Base.{
  ℕ, ◌-◌, ◌^◌, ◌<◌, ◌≡◌, refl, ap, ◌∙◌, inl, true, false, List, [], ◌∷◌, ◌++◌, some, Bytes, map,
  codes, length, arith, bytes_eq, take, All, split, trim_space, drop,
}
use r_dns_crawler.Base.Counters.{zeros}
use r_dns_crawler.Base.Results.{Result, ok, ◌>>=◌}
use r_dns_crawler.Model.Record.{Record}
use r_dns_crawler.Model.Status.{status_to_code, has_ptr, code}
use r_dns_crawler.Model.Mask.{parse_statuses, parse_parts, has}
use r_dns_crawler.Ipgen.Address.{int_to_ip, ip_to_int}
use r_dns_crawler.Resolver.{Resolver, pos, clamp}
use r_dns_crawler.Resolver as Resolver
use r_dns_crawler.Resolver.Query.{LastError}
use r_dns_crawler.Resolver.Lookup.{PtrResult}
use r_dns_crawler.Crawler as Crawler
use r_dns_crawler.Crawler.Process.{Observed, Stats, process}
use r_dns_crawler.Crawler.Pool.{Pool, receive, send, leave, Reachable, begin, work, start}
use r_dns_crawler.Store.Codec.{copying}
use r_dns_crawler.Store.Block.{
  Rec, finished, encode_block, encode_records, encode_record, encode_ptr, status_flags,
}
use r_dns_crawler.Store.Header.{header_size}
use r_dns_crawler.Store.Varint.{append_uvarint}
use r_dns_crawler.Ipgen.Address.Laws.{ip_to_int-int_to_ip}
use r_dns_crawler.Store.Scan.{scan, scan_blocks}
use r_dns_crawler.Store.Scan.Written.{IsBlock}
use r_dns_crawler.Store.Writer.{new_writer}
use r_dns_crawler.Store.Writer.Written.{chunks, chunk_from}
use r_dns_crawler.Store.Targets.{
  stream_targets, stream_records, count_targets, counted, count_records,
}
use r_dns_crawler.Store.Targets.Delivered.{delivered, targets}
use r_dns_crawler.Cmd.Sink.{rdnsz, bytes, pipeline, new_sink, out_path, sink_start}
use r_dns_crawler.Cmd.Run.{
  CommonFlags, Files, Disk, Recrawl, reread, Session, crawler_config, run_recrawl, start_recrawl,
  open_resolver, open_sink, wrap, flag_file,
}
use r_dns_crawler.Cmd.Setup.{resolver_list}
use r_dns_crawler.Cmd.Cursor.{recrawl_skip}
use r_dns_crawler.Cmd.Run.Laws.{IsProcessed, Crawled, addresses}
use r_dns_crawler.Cmd.Run.Again.{run_recrawl_whole}
use r_dns_crawler.Ipgen.Shard.{ShardConfig, in_shard_sample}
use r_dns_crawler.Ipgen.Reserved.{is_reserved, in_any}
use r_dns_crawler.Ipgen.Reserved.Laws.{picks}
use r_dns_crawler.Ipgen.Walk.{generate_sharded_full, normalised, sharded}
use r_dns_crawler.Ipgen.Walk.Sharded.{emits, quota, wanted, walk_end}
use r_dns_crawler.Cmd.Setup.{crawl_setup}
use r_dns_crawler.Cmd.Cursor.{crawl_start}
use r_dns_crawler.Cmd.Run.{run_crawl, setup, shard_given}
use r_dns_crawler.Cmd.Run.First.{first_walk, run_crawl_lem}
use r_dns_crawler.Cmd.Run.Updated.{run_recrawl_lem}
use r_dns_crawler.Tests.Data.{old, old-header, old-scan, records}

abbrev flags : CommonFlags
flags = record {
  concurrency = pos 1;
  retries = pos 2;
  f_cr_dns = true;
  qps = pos 0;
  resolvers = codes "9.9.9.9";
  resolvers_file = [];
  out = codes "b";
  format = codes "rdnsz";
}

abbrev files : Files
files = λ s. some old

-- Two paths name one file only if they are the same text, and nothing is seen of what a run writes.
abbrev disk : Disk
disk = record { files = files; same_file = λ s t. bytes_eq s t; meanwhile = λ s. s }

abbrev pool_of_nine : Resolver
pool_of_nine = record { servers = codes "9.9.9.9:53" ∷ []; retries = 2 }

abbrev job : Recrawl
job = record {
  session = record {
    resolver = pool_of_nine;
    sink = rdnsz (new_writer 7 2 1700000001);
    config = crawler_config flags;
  };
  expected = 1;
  skip = 0;
  stream = stream_targets copying old 4 0 0 0 9;
}

masked : parse_statuses (codes "nxdomain") ≡ ok 4
unfolding parse_statuses parse_parts split trim_space bytes_eq status_to_code
masked = refl

old-count : count_targets copying old 4 ≡ ok 1
unfolding count_targets counted count_records has code status_to_code bytes_eq
old-count = rw old-scan refl

opened : open_resolver flags files ≡ ok pool_of_nine
unfolding open_resolver Resolver.new wrap resolver_list flag_file trim_space Resolver.normalise
    split Resolver.add_server Resolver.has_colon clamp
opened = refl

started :
    run_recrawl copying flags disk [] (codes "a") (codes "nxdomain") 1700000001 0 false 9 ≡ ok job
unfolding run_recrawl start_recrawl wrap open_sink new_sink recrawl_skip bytes_eq reread out_path
started = rw (masked, ◌>>=◌, old-header, old-count) (rw (opened, ◌>>=◌) refl)

other_file :
    bytes_eq (codes "a") (out_path (codes "b") (codes "rdnsz") (codes "recrawl") []) ≡ false
unfolding out_path bytes_eq
other_file = refl

apart :
    bytes_eq
      (codes "a")
      (out_path (codes "b") (codes "rdnsz") (codes "recrawl") [] ++ codes ".cursor")
    ≡ false
unfolding out_path bytes_eq
apart = refl

-- A re-crawl whose output is the previous shard itself: the shard is read to its end and truncated,
-- one target is announced, and none is handed to the workers.
abbrev onto_itself : Recrawl
onto_itself = record job { stream = stream_targets copying (zeros header_size) 4 0 0 0 9 }

started_onto_itself :
    run_recrawl copying flags disk [] (codes "b") (codes "nxdomain") 1700000001 0 false 9
    ≡ ok onto_itself
unfolding run_recrawl start_recrawl wrap open_sink new_sink recrawl_skip bytes_eq reread out_path
    sink_start new_writer
started_onto_itself = rw (masked, ◌>>=◌, old-header, old-count) (rw (opened, ◌>>=◌) refl)

nothing_sent : delivered onto_itself.stream.events ≡ []
unfolding stream_targets scan stream_records scan_blocks
nothing_sent = refl

mask_hits : targets 4 records ≡ 16909061 ∷ []
unfolding has code status_to_code bytes_eq
mask_hits = refl

run_recrawl_whole_example :
    (finished ≡ finished)
    × (job.expected ≡ length (targets 4 records))
    × (delivered job.stream.events ≡ take 9 (drop job.skip (targets 4 records)))
run_recrawl_whole_example =
    run_recrawl_whole copying flags disk [] (codes "a") (codes "nxdomain") old 1700000001 0 false 9
      job 4 records finished started other_file apart refl masked old-scan (omega arith)

-- What the pool makes of one address that has no name.
abbrev answer : PtrResult
answer = record {
  names = [];
  resolver = codes "9.9.9.9:53";
  attempts = 1;
  status = codes "nxdomain";
  rcode = some 3;
}

abbrev no_addresses : ℕ → Bytes → Result LastError (List Bytes)
no_addresses k name = ok []

abbrev observed : Observed
observed = record { latency_ms = 5; rcode = codes "NXDOMAIN"; error = []; ts = [] }

abbrev stats : Stats
stats = record { processed = 0; by_code = zeros 8 }

abbrev made_of : ℕ → Record
made_of v = (process (λ s. []) no_addresses true (int_to_ip v) answer observed stats).0

made_of-IsProcessed : (v : ℕ) → IsProcessed (λ s. []) (made_of v)
unfolding process
made_of-IsProcessed v = record {
  answers = no_addresses;
  check = true;
  found = answer;
  seen = observed;
  stats = stats;
  made = refl;
}

-- One worker: the address is received, sent, and the worker returns.
abbrev ended : ℕ → Pool
ended v = record {
  todo = [];
  idle = 0;
  flight = [];
  sent = int_to_ip v ∷ [];
  dropped = [];
  stopped = 1;
  cancelled = false;
}

ended-Reachable : (v : ℕ) → Reachable 1 (int_to_ip v ∷ []) (ended v)
unfolding start
ended-Reachable v =
    work (work (work begin (receive refl refl)) (send (Permᴰ.refl (int_to_ip v ∷ []))))
      (leave refl (inl refl))

crawled : (v : ℕ) → v < 2 ^ 32 → Crawled (λ s. []) 1 (v ∷ []) (made_of v ∷ [])
unfolding process
crawled v h = record {
  some_workers = omega arith;
  ipv4 = (h, tt);
  pool = ended v;
  reached = ended-Reachable v;
  ended = refl;
  running = refl;
  its_records = Permᴰ.refl (int_to_ip v ∷ []);
  processed = (made_of-IsProcessed v, tt);
}

abbrev in_order : List Record → List Record
in_order l = l

-- The record of an address in the block of one.
abbrev found_nothing : ℕ → Record
found_nothing v = record (made_of v) { ip_int = v }

made_of-found : (v : ℕ) → v < 2 ^ 32 → made_of v ≡ found_nothing v
unfolding process
made_of-found v h = rw (ip_to_int-int_to_ip (λ s. []) v h) refl

one-IsBlock : IsBlock copying (found_nothing 16909061 ∷ [])
unfolding process encode_block encode_records encode_record encode_ptr status_flags append_uvarint
    has_ptr bytes_eq code status_to_code
one-IsBlock = record {
  storable = (record { is_ipv4 = omega arith; plain = tt }, tt);
  payload_fits = omega arith;
  compressed_fits = omega arith;
}

fits : All (IsBlock copying) (map in_order (chunks (made_of 16909061 ∷ [])))
unfolding chunk_from
fits = rw (made_of-found 16909061 (omega arith)) (one-IsBlock, tt)

abbrev sent : List ℕ
sent = delivered job.stream.events

sent_one : sent ≡ 16909061 ∷ []
sent_one = run_recrawl_whole_example.2 ∙ ap (take 9) mask_hits

compact : bytes_eq flags.format (codes "jsonl") ≡ false
unfolding bytes_eq
compact = refl

one_worker : Crawled (λ s. []) (clamp job.session.config.concurrency) sent (made_of 16909061 ∷ [])
unfolding clamp crawler_config Crawler.new Crawler.or_default
one_worker = rw sent_one (crawled 16909061 (omega arith))

run_recrawl_lem_example :
    (finished ≡ finished)
    × (job.expected ≡ length (targets 4 records))
    × (file : Bytes) × (out : List Rec) × (pipeline copying in_order job.session.sink
          (made_of 16909061 ∷ [])
        ≡ bytes file)
    × (scan copying file ≡ (out, finished))
    × Permᴰ (addresses out) (targets 4 records)
run_recrawl_lem_example =
    run_recrawl_lem copying in_order (λ l. Permᴰ.refl l) (λ s. []) flags disk [] (codes "a")
      (codes "nxdomain") old 1700000001 9 job 4 records finished (made_of 16909061 ∷ []) compact
      started other_file apart refl masked old-scan (omega arith)
      (omega (arith, ap length mask_hits)) one_worker fits

-- A crawl of one node from 1.2.3.5 on, with the limit 1.
abbrev session : Session
session = record {
  resolver = pool_of_nine;
  sink = rdnsz (new_writer 1 0 1700000001);
  config = crawler_config flags;
}

abbrev walk : ShardConfig
walk = record { shards = 1; shard_id = 0; start_ip = 16909061; limit = 1; sample_threshold = 0 }

start_read : ip_to_int (λ s. []) (int_to_ip 16909061) ≡ 16909061
start_read = ip_to_int-int_to_ip (λ s. []) 16909061 (omega arith)

walked : emits (generate_sharded_full (2 ^ 33) 9 walk) ≡ some (16909061 ∷ [])
unfolding generate_sharded_full normalised is_reserved in_any in_shard_sample sharded
walked = refl

crawl_started :
    run_crawl (λ s. []) flags files [] [] (int_to_ip 16909061) 1700000001 1 0 1 0 false (2 ^ 33) 9
    ≡ ok (session, generate_sharded_full (2 ^ 33) 9 walk)
unfolding run_crawl setup shard_given crawl_setup crawl_start wrap open_sink new_sink bytes_eq
crawl_started = rw (start_read, opened, ◌>>=◌) refl

crawl_worker :
    Crawled (λ s. []) (clamp session.config.concurrency) (16909061 ∷ []) (made_of 16909061 ∷ [])
unfolding clamp crawler_config Crawler.new Crawler.or_default
crawl_worker = crawled 16909061 (omega arith)

run_crawl_lem_example :
    (0 < 1)
    × (file : Bytes) × (out : List Rec) × (pipeline copying in_order session.sink
          (made_of 16909061 ∷ [])
        ≡ bytes file)
    × (scan copying file ≡ (out, finished))
    × (let cfg = normalised (first_walk (λ s. []) (int_to_ip 16909061) 1 0 1 0) in
        Permᴰ (addresses out) (
          take (quota cfg 9 0) (
            picks
              (wanted cfg)
              (ip_to_int (λ s. []) (int_to_ip 16909061))
              (walk_end - ip_to_int (λ s. []) (int_to_ip 16909061)))))
run_crawl_lem_example =
    run_crawl_lem (λ s. []) flags files [] [] (int_to_ip 16909061) 1700000001 1 0 1 0 (2 ^ 33) 9
      copying in_order (λ l. Permᴰ.refl l) session (generate_sharded_full (2 ^ 33) 9 walk)
      (16909061 ∷ []) (made_of 16909061 ∷ []) compact crawl_started (omega (arith, start_read))
      (omega (arith, start_read)) walked (crawl_worker) fits
