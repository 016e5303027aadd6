-- ===== src/Cmd/Run.antt =====
-- cmd/rdns-crawler/main.go: the four crawling commands up to the crawl itself. The file system is a
-- function from names to contents; an error ends the command before anything is crawled. A stamp is
-- the time that a call of `outPath` reads, `now` that of the writer.
pub mod Laws
pub mod Again
pub mod Updated
pub mod First
use r_dns_crawler.Base.{
  ℕ, ◌^◌, ◌≡◌, Bool, true, false, not, ◌&&◌, List, [], ◌∷◌, ◌++◌, Option, some, none, Bytes,
  bytes_nil, bytes_eq, codes, ◌==◌, if◌then◌else◌, map,
}
use r_dns_crawler.Base.Results.{Result, ok, err, ◌>>=◌}
use r_dns_crawler.Model.Record.{Record}
use r_dns_crawler.Model.Mask.{ParseError, parse_statuses}
use r_dns_crawler.Ipgen.Address.{int_to_ip, ip_to_int}
use r_dns_crawler.Ipgen.Walk.{Event, generate_sequential, generate_sharded_full}
use r_dns_crawler.Ipgen.Random.{generate_random}
use r_dns_crawler.Resolver.{ℤ, pos, Resolver, NoResolvers, clamp}
use r_dns_crawler.Resolver as Resolver
use r_dns_crawler.Crawler as Crawler
use r_dns_crawler.Crawler.{Config}
use r_dns_crawler.Store.Codec.{Codec}
use r_dns_crawler.Store.Header.{Header, HeaderError, read_header}
use r_dns_crawler.Store.Block.{Outcome}
use r_dns_crawler.Store.Writer.{ResumeError}
use r_dns_crawler.Store.Targets.{StreamResult, count_targets, stream_targets}
use r_dns_crawler.Cmd.Cursor.{read_cursor, read_count_cursor, recrawl_skip}
use r_dns_crawler.Cmd.Setup.{ResolversError, resolver_list, Crawl, crawl_setup}
use r_dns_crawler.Cmd.Sink.{Sink, new_sink, sink_start, out_path}

abbrev pub Files : Type 0
Files = Bytes → Option Bytes

-- The file system of a re-crawl, which reads a file again while it writes others. Two paths can name
-- one file: `same_file`. `meanwhile` is what a scan reads of a file to which the run itself writes,
-- for the content that it had before.
pub record Disk : Type 0 where
  pub files : Files
  pub same_file : Bytes → Bytes → Bool
  pub meanwhile : Bytes → Bytes

-- `commonFlags`; the timeout goes to the DNS client.
pub record CommonFlags : Type 0 where
  pub concurrency : ℤ
  pub retries : ℤ
  pub f_cr_dns : Bool
  pub qps : ℤ
  pub resolvers : Bytes
  pub resolvers_file : Bytes
  pub out : Bytes
  pub format : Bytes

pub data CmdError : Type 0 where
  bad_resolvers : ResolversError → CmdError
  bad_pool : NoResolvers → CmdError
  bad_sink : ResumeError → CmdError
  bad_start : CmdError
  bad_shard : CmdError
  no_from : CmdError
  bad_statuses : ParseError → CmdError
  no_previous : CmdError
  bad_previous : HeaderError → CmdError
  bad_plan : Outcome → CmdError

-- The error of a call, as one of the command's.
unfoldable pub wrap : {E A : Type 0} → (E → CmdError) → Result E A → Result CmdError A
wrap f (ok a) = ok a
wrap f (err e) = err (f e)

-- What `setup` builds.
pub record Session : Type 0 where
  pub resolver : Resolver
  pub sink : Sink
  pub config : Config

-- The contents of the file that a flag names, if it is given.
unfoldable pub flag_file : Files → Bytes → Option (Option Bytes)
flag_file files name = if bytes_nil name then none else some (files name)

unfoldable pub open_resolver : CommonFlags → Files → Result CmdError Resolver
open_resolver c files = do
  servers ← wrap bad_resolvers (resolver_list (flag_file files c.resolvers_file) c.resolvers)
  wrap bad_pool (Resolver.new servers c.retries)

unfoldable pub open_sink :
    CommonFlags → Files → (path : Bytes) → (now shards shard_id : ℕ) → Bool → Result CmdError Sink
open_sink c files path now shards shard_id resume =
    wrap bad_sink (new_sink c.format (files path) shards shard_id now resume)

-- `crawler.New` with the flags and a progress line each second.
unfoldable pub crawler_config : CommonFlags → Config
crawler_config c = Crawler.new (record {
  concurrency = c.concurrency;
  f_cr_dns = c.f_cr_dns;
  qps = c.qps;
  progress_int = pos (10 ^ 9);
})

-- `setup`.
unfoldable pub setup :
    CommonFlags
    → Files
    → (mode stamp : Bytes) → (now shards shard_id : ℕ) → (resume : Bool) → Result CmdError Session
unfolding open_resolver open_sink
setup c files mode stamp now shards shard_id resume = do
  res ← open_resolver c files
  wr ← open_sink c files (out_path c.out c.format mode stamp) now shards shard_id resume
  ok (record { resolver = res; sink = wr; config = crawler_config c })

-- `runTest`: `draws` are those of the random generator; `room` is the number of sends before the
-- cancellation, here and below.
unfoldable pub run_test :
    CommonFlags
    → Files
    → (stamp : Bytes) → (now count : ℕ) → (draws : List ℕ) → (room : ℕ)
    → Result CmdError (Session × List Event)
run_test c files stamp now count draws room = do
  s ← setup c files (codes "test") stamp now 0 0 false
  ok (s, generate_random room count draws)

-- `runSweep`: a start that is no address is an error.
unfoldable pub sweep_start : (parse_v6 : Bytes → Bytes) → Bytes → Result CmdError ℕ
sweep_start parse_v6 start_ip =
    let start = ip_to_int parse_v6 start_ip in
    if start == 0 && not (bytes_eq start_ip (codes "0.0.0.0")) then err bad_start else ok start

unfoldable pub run_sweep :
    (parse_v6 : Bytes → Bytes)
    → CommonFlags
    → Files
    → (stamp start_ip : Bytes) → (now count fuel room : ℕ) → Result CmdError (Session × List Event)
unfolding sweep_start
run_sweep parse_v6 c files stamp start_ip now count fuel room = do
  start ← sweep_start parse_v6 start_ip
  s ← setup c files (codes "sweep") stamp now 0 0 false
  ok (s, generate_sequential fuel room start count)

unfoldable pub shard_given : Option Crawl → Result CmdError Crawl
shard_given none = err bad_shard
shard_given (some crawl) = ok crawl

-- `runCrawl`: `outPath` is called twice, at the times `stamp` and `stamp'`; the cursor's file is
-- named after the first path. A start that is no address counts as 0.0.0.0.
unfoldable pub run_crawl :
    (parse_v6 : Bytes → Bytes)
    → CommonFlags
    → Files
    → (stamp stamp' start_ip : Bytes) → (now shards shard_id limit sample_threshold : ℕ)
    → (resume : Bool) → (fuel room : ℕ) → Result CmdError (Session × List Event)
unfolding shard_given
run_crawl parse_v6 c files stamp stamp' start_ip now shards shard_id limit sample_threshold resume
      fuel room =
    do
      let path = out_path c.out c.format (codes "crawl") stamp
      let cursor = read_cursor parse_v6 (files (path ++ codes ".cursor"))
      crawl ← shard_given (
          crawl_setup shards shard_id (ip_to_int parse_v6 start_ip) limit sample_threshold resume
            cursor)
      s ← setup c files (codes "crawl") stamp' now crawl.header_shards crawl.header_shard_id resume
      ok (s, generate_sharded_full fuel room crawl.walk)

-- A re-crawl: the number of targets that are announced, those skipped, and the stream of the rest.
pub record Recrawl : Type 0 where
  pub session : Session
  pub expected : ℕ
  pub skip : ℕ
  pub stream : StreamResult

-- A file that cannot be read is an error.
unfoldable pub given : Option Bytes → Result CmdError Bytes
given none = err no_previous
given (some file) = ok file

-- `--from` is required.
unfoldable pub required : Bytes → Result CmdError Bytes
required [] = err no_from
required (c ∷ s) = ok (c ∷ s)

-- What `StreamTargets` reads of the previous shard, which had the content `old` before the output at
-- `path` was created and the checkpoints were written beside it: an output that is the same file is
-- truncated, or is extended by a run that resumes.
unfoldable pub reread : Disk → (from path old : Bytes) → (resume : Bool) → Sink → Bytes
reread d from path old resume wr =
    if d.same_file from path
    then (if resume then d.meanwhile (sink_start wr) else sink_start wr)
    else if d.same_file from (path ++ codes ".cursor")
    then d.meanwhile old
    else old

-- The second half of `runRecrawl`: the position to resume at, the output and the stream.
unfoldable pub start_recrawl :
    Codec
    → CommonFlags
    → Disk
    → (from path old : Bytes) → Header
    → (mask expected now limit : ℕ) → (resume : Bool) → (room : ℕ) → Result CmdError Recrawl
unfolding reread
start_recrawl z c d from path old h mask expected now limit resume room = do
  let skip = recrawl_skip resume (read_count_cursor (d.files (path ++ codes ".cursor")))
  res ← open_resolver c d.files
  wr ← open_sink c d.files path now h.shards h.shard_id resume
  ok (record {
    session = record { resolver = res; sink = wr; config = crawler_config c };
    expected = expected;
    skip = skip;
    stream = stream_targets z (reread d from path old resume wr) mask skip limit 0 room;
  })

-- `runRecrawl`.
unfoldable pub run_recrawl :
    Codec
    → CommonFlags
    → Disk
    → (stamp from statuses : Bytes) → (now limit : ℕ) → (resume : Bool) → (room : ℕ)
    → Result CmdError Recrawl
unfolding given required
run_recrawl z c d stamp from statuses now limit resume room = do
  name ← required from
  mask ← wrap bad_statuses (parse_statuses statuses)
  old ← given (d.files name)
  h ← wrap bad_previous (read_header old)
  expected ← wrap bad_plan (count_targets z old mask)
  let path = out_path c.out c.format (codes "recrawl") stamp
  start_recrawl z c d name path old h mask expected now limit resume room
