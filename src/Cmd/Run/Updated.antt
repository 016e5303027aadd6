-- ===== src/Cmd/Run/Updated.antt =====
-- cmd/rdns-crawler/main.go: the file that a whole re-crawl leaves.
use mathlib.Core.List.{Permᴰ}
use r_dns_crawler.Base.{
  ℕ, ◌≤◌, ◌<◌, ◌^◌, ◌≡◌, sym, ap, subst, ◌∙◌, false, List, ◌++◌, Option, some, Bytes, map, length,
  All, bytes_eq, codes, take_all, drop, take,
}
use r_dns_crawler.Base.Results.{ok, ok_injective}
use r_dns_crawler.Model.Record.{Record}
use r_dns_crawler.Model.Mask.{parse_statuses}
use r_dns_crawler.Resolver.{clamp}
use r_dns_crawler.Store.Codec.{Codec}
use r_dns_crawler.Store.Block.{Rec, Outcome, finished}
use r_dns_crawler.Store.Scan.{scan}
use r_dns_crawler.Store.Scan.Written.{IsBlock}
use r_dns_crawler.Store.Writer.{new_writer}
use r_dns_crawler.Store.Writer.Written.{chunks}
use r_dns_crawler.Store.Targets.Delivered.{delivered, targets}
use r_dns_crawler.Cmd.Cursor.{recrawl_skip}
use r_dns_crawler.Cmd.Sink.{Sink, rdnsz, bytes, new_sink, out_path, pipeline}
use r_dns_crawler.Cmd.Run.{Disk, CommonFlags, Recrawl, run_recrawl}
use r_dns_crawler.Cmd.Run.Laws.{Crawled, addresses, pipeline_lem}
use r_dns_crawler.Cmd.Run.Again.{run_recrawl-Planned, run_recrawl_whole}

pub new_sink_rdnsz :
    (format : Bytes) (existing : Option Bytes) (shards shard_id now : ℕ) {s : Sink}
    → bytes_eq format (codes "jsonl") ≡ false
    → new_sink format existing shards shard_id now false ≡ ok s
    → s ≡ rdnsz (new_writer shards shard_id now)
unfolding new_sink
new_sink_rdnsz format existing shards shard_id now compact h = sym (ok_injective (rw compact at h))

-- A re-crawl without `--resume` and without a limit, into a .rdnsz file, that starts from a previous
-- shard with fewer than 2 ^ 64 records, which is neither its output nor the file of its checkpoints,
-- and is not cancelled: the sends of all targets go through, the
-- workers end, the records come from `process`, and their blocks are storable and fit the block
-- headers. Then the previous shard was read to its end, as many targets were announced as it has,
-- and the file that the run leaves scans to its end and has one record for each target and no other.
pub run_recrawl_lem :
    (z : Codec) (sort_slice : List Record → List Record)
    (sort_perm : (l : List Record) → Permᴰ (sort_slice l) l) (parse_v6 : Bytes → Bytes)
    (c : CommonFlags) (d : Disk) (stamp from statuses old : Bytes) (now room : ℕ) (job : Recrawl)
    (mask : ℕ) (rs : List Rec) (e : Outcome) (records : List Record)
    → bytes_eq c.format (codes "jsonl") ≡ false
    → run_recrawl z c d stamp from statuses now 0 false room ≡ ok job
    → d.same_file from (out_path c.out c.format (codes "recrawl") stamp) ≡ false
    → d.same_file from (out_path c.out c.format (codes "recrawl") stamp ++ codes ".cursor") ≡ false
    → d.files from ≡ some old
    → parse_statuses statuses ≡ ok mask
    → scan z old ≡ (rs, e)
    → length rs < 2 ^ 64
    → length (targets mask rs) ≤ room
    → Crawled parse_v6 (clamp job.session.config.concurrency) (delivered job.stream.events) records
    → All (IsBlock z) (map sort_slice (chunks records))
    → (e ≡ finished)
      × (job.expected ≡ length (targets mask rs))
      × (file : Bytes) × (out : List Rec) × (pipeline z sort_slice job.session.sink records
          ≡ bytes file)
      × (scan z file ≡ (out, finished))
      × Permᴰ (addresses out) (targets mask rs)
unfolding recrawl_skip
run_recrawl_lem z sort_slice sort_perm parse_v6 c d stamp from statuses old now room job mask rs e
      records compact started other apart read parsed scanned few enough crawled fits =
    let (whole, announced, sent) =
      run_recrawl_whole z c d stamp from statuses old now 0 false room job mask rs e started other
        apart read parsed scanned few in
    let p = run_recrawl-Planned z c d stamp from statuses now 0 false room job started in
    let all_sent : delivered job.stream.events ≡ targets mask rs =
      sent
      ∙ ap (λ k. take room (drop k (targets mask rs))) p.its_start.its_skip
      ∙ take_all room (targets mask rs) enough in
    let sink =
      new_sink_rdnsz c.format _ p.old_header.shards p.old_header.shard_id now compact
        p.its_start.its_sink in
    let (file, out, written, back, same) =
      pipeline_lem z sort_slice sort_perm parse_v6 _ (delivered job.stream.events) records
        p.old_header.shards p.old_header.shard_id now crawled fits in
    (
      whole,
      announced,
      file,
      out,
      ap (λ s. pipeline z sort_slice s records) sink ∙ written,
      back,
      subst (λ l. Permᴰ (addresses out) l) all_sent same,
    )
