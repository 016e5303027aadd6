-- ===== src/Lib.antt =====
-- The Go packages of rDNS-Crawler: a crawler that asks for the reverse DNS names of the routable
-- IPv4 space, stores one record per address in compact .rdnsz files, crawls parts of it again and
-- merges the passes.
--
-- The parts and the files that model them:
-- - internal/model/record.go: Model/Record (the struct), Model/Status (status strings and codes),
--   Model/Mask (StatusMask, ParseStatuses, String). The other packages exchange these.
-- - internal/store/format.go, template.go: the constants stand in Store/Block and Store/Header;
--   Store/Template has encodeTemplate and decodeTemplate.
-- - internal/store/writer.go: Store/Block encodes the records of a block, Store/Header makes the
--   header, Store/Scan frames a block (block_bytes), and Store/Writer is the writer's state with
--   NewWriter, NewWriterResume, Add, Consume, flushBlock and Close; Store/Summary has PrintSummary
--   with upct, humanBytes and the reader's topN.
-- - internal/store/reader.go: Store/Varint and Store/Words read numbers, Store/Block has decodeBlock
--   with its errors and the run-time panic of its slice expression as outcomes, Store/Header has
--   ReadHeader, Store/Scan has Scan.
-- - internal/store/targets.go: Store/Targets has CountTargets and StreamTargets on top of Scan.
-- - internal/ipgen/ipgen.go: Ipgen/Reserved (the reserved blocks and their total), Ipgen/Shard
--   (mix64, inShardSample), Ipgen/Walk (GenerateSequential, GenerateShardedFull), Ipgen/Random
--   (GenerateRandom), Ipgen/Sample (SampleThresholdForPercent) and Ipgen/Address (IntToIP, IPToInt,
--   and what they use of net.IP).
-- - internal/resolver/resolver.go: Resolver (New, pick), Resolver/Query (the retry loop),
--   Resolver/Lookup (LookupPTR, LookupA, classifyErr).
-- - internal/merge/merge.go: Merge/Load (loadNewShard), Merge/Shard (the loop of mergeShard over the
--   baseline), Merge/Run (the rest of mergeShard), Merge/Pairs (discover, Run), Merge/Names
--   (hashNames with sort.Strings), Merge/Group (group), Merge/Report (RenderText). Merge/Spec states
--   the update policy on records, without tables.
-- - internal/compare/compare.go: Compare/Load (loadOldTargets, dedupSorted), Compare/Join
--   (joinNewPass and the loop over the missing targets), Compare/Run (discover, Run), Compare/Final
--   (finalize) and Compare/Report (RenderText, renderRow, sortedStatusKeys, pctOf). It shares
--   hashNames, sortedKeys and group with merge and tldOf with the store, of which the source has
--   copies.
-- - internal/crawler/crawler.go: Crawler (New), Crawler/Process (process, tally), Crawler/Progress (the
--   line of printProgress) and Crawler/Pool (Run, a relation of steps between states of the pool).
--   process calls the resolver, and ipToInt is a copy of IPToInt.
-- - internal/output/output.go: Output (New, Consume, write, topN) and Output/Summary (PrintSummary); a
--   line of the file is the record.
-- - cmd/rdns-crawler/main.go: Cmd/Cursor (the checkpoint files and where crawl and recrawl resume),
--   Cmd/Setup (resolverList, ext, the numbers that runCrawl starts with), Cmd/Sink (the output
--   backends, newSink, outPath, pipeline), Cmd/Run (setup, runTest, runSweep, runCrawl, runRecrawl),
--   Cmd/Inspect (main, runInfo, runDump), Cmd/Passes (runCompare, runMerge), Cmd/Reports (the sums of
--   runInfo, the rows of runDump) and Cmd/Printed (the lines of runInfo, the reports of runCompare and
--   runMerge). The commands take the file system as a function from names to contents, and Cmd/Run/Laws
--   joins them to the worker pool and the writer. runRecrawl reads the previous shard a second time when
--   the output is open, and so takes a Disk, which also tells which paths name one file.
-- Base holds what they share (Base/Keyed has the sorted tables of merge and compare with sort.Search,
-- Base/Report the lines and tables that reports are made of) and Tests the theorems at concrete inputs.
--
-- How code becomes definitions. A string is the list of its bytes. Unsigned integers are natural
-- numbers with the wrap-around written out. A file is the list of its bytes. A callback or a channel
-- becomes the list of what is handed over, in order; the context and the consumer of a channel are
-- the number of sends that go through before the cancellation. A struct that a method changes is
-- passed and returned. A map with integer keys that is a set of bits is a function into Bool. The
-- goroutines of the worker pool are steps of a relation, in any order.
--
-- Parameters. The zstd codec is a record whose law is that decompression undoes compression; a codec
-- that copies satisfies it. sort.Slice, which is not stable, is any function that permutes its
-- argument, and slices.SortFunc in compare any function that puts the entries in order. net.ParseIP is
-- the scan of four fields where a dot comes before a colon, and a parameter elsewhere. The draws of
-- the random generator are a list. The exchange of a DNS message, the reversed name of an address and
-- the values of the resolver's shared counter are arguments. The operations on float64 are a record
-- (Base/Floats), and so the percentages, rates and sampling thresholds are the terms that the code
-- computes, over any such operations. The days and durations that reports print are arguments, and
-- text/tabwriter is left out behind the rows of a table. Whether two paths name one file, what a scan
-- reads of a file that the run is writing, and whether the output of a merge is its baseline's own file
-- are arguments too.
--
-- Fuel. decodeBlock and Scan take at least a byte in each round, so as many rounds as there are bytes
-- are enough; an exhausted loop is an outcome of its own. The walks take fuel as an argument, and
-- their theorems ask for more than what is left of the 2 ^ 32 addresses, since each round moves on;
-- an exhausted walk has no list of emitted addresses, nor has a random sample whose draws run out.
-- The binary search has as many rounds as the table has entries. humanBytes has seven rounds, and no
-- int64 needs more.
--
-- Not modelled: the flag package and signals in cmd/rdns-crawler, and the lines that its commands write
-- to standard error; the encoding of JSON; the ticker of the progress printer and the progress lines
-- of compare and merge; errors of the file system other than a file that ends early; scripts under
-- deploy and tools.
pub mod Base
pub mod Model
pub mod Store
pub mod Ipgen
pub mod Resolver
pub mod Merge
pub mod Compare
pub mod Crawler
pub mod Output
pub mod Cmd
pub mod Tests
