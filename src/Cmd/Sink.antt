-- ===== src/Cmd/Sink.antt =====
-- cmd/rdns-crawler/main.go: the two output backends behind `sink`, and the name of the output file.
use r_dns_crawler.Base.{
  ℕ, Bool, List, [], ◌++◌, Option, Bytes, bytes_nil, bytes_eq, codes, if◌then◌else◌,
}
use r_dns_crawler.Base.Results.{Result, ok, err}
use r_dns_crawler.Model.Record.{Record}
use r_dns_crawler.Store.Codec.{Codec}
use r_dns_crawler.Store.Writer.{Writer, ResumeError, new_writer, new_writer_resume}
use r_dns_crawler.Store.Writer as Writer
use r_dns_crawler.Output.{JsonWriter}
use r_dns_crawler.Output as Output
use r_dns_crawler.Cmd.Setup.{ext}

-- `sink`: the writers of internal/output and internal/store.
pub data Sink : Type 0 where
  jsonl : JsonWriter → Sink
  rdnsz : Writer → Sink

unfoldable pub resumed_sink : Result ResumeError Writer → Result ResumeError Sink
resumed_sink (err e) = err e
resumed_sink (ok w) = ok (rdnsz w)

-- `newSink`: `existing` is the content of the file at the output's path, `none` without one.
unfoldable pub new_sink :
    (format : Bytes)
    → (existing : Option Bytes) → (shards shard_id now : ℕ) → (resume : Bool)
    → Result ResumeError Sink
unfolding resumed_sink
new_sink format existing shards shard_id now resume =
    if bytes_eq format (codes "jsonl")
    then ok (jsonl Output.new)
    else if resume
    then resumed_sink (new_writer_resume existing shards shard_id now)
    else ok (rdnsz (new_writer shards shard_id now))

-- What is in the file at the output's path when `newSink` has returned: the constructors of the
-- writers truncate it, and a resumed writer keeps it.
unfoldable pub sink_start : Sink → Bytes
sink_start (jsonl w) = []
sink_start (rdnsz w) = w.file

-- What a closed sink leaves: the records of the lines, or the bytes of the file.
pub data OutFile : Type 0 where
  lines : List Record → OutFile
  bytes : Bytes → OutFile

module _ (z : Codec) (sort_slice : List Record → List Record) where
  unfoldable pub sink_consume : Sink → List Record → Sink
  sink_consume (jsonl w) rs = jsonl (Output.consume w rs)
  sink_consume (rdnsz w) rs = rdnsz (Writer.consume z sort_slice w rs)

  unfoldable pub sink_close : Sink → OutFile
  sink_close (jsonl w) = lines w.lines
  sink_close (rdnsz w) = bytes (Writer.close z sort_slice w)

  -- `pipeline`, for the records in the order in which the workers sent them.
  unfoldable pub pipeline : Sink → List Record → OutFile
  unfolding sink_consume sink_close
  pipeline s rs = sink_close (sink_consume s rs)

-- `outPath`; the directories are there. `stamp` is the time that the call of it reads.
unfoldable pub out_path : (out format mode stamp : Bytes) → Bytes
unfolding ext
out_path out format mode stamp =
    if bytes_nil out
    then codes "OUTPUT/rdns-" ++ (mode ++ (codes "-" ++ (stamp ++ (codes "." ++ ext format))))
    else out
