-- ===== src/Cmd/Inspect.antt =====
-- cmd/rdns-crawler/main.go: the choice of the command, and the commands `info` and `dump` from their
-- arguments on.
use r_dns_crawler.Base.{
  Bool, true, false, List, [], ◌∷◌, ◌++◌, Option, some, none, Bytes, bytes_nil, bytes_eq, codes,
  ◌==◌, if◌then◌else◌,
}
use r_dns_crawler.Base.Results.{Result, ok, err, ◌>>=◌}
use r_dns_crawler.Store.Codec.{Codec}
use r_dns_crawler.Store.Header.{Header, HeaderError, read_header}
use r_dns_crawler.Store.Block.{Outcome, finished, failed, truncated_tail}
use r_dns_crawler.Store.Scan.{scan}
use r_dns_crawler.Cmd.Reports.{InfoTotals, info_totals, Row, dump}
use r_dns_crawler.Cmd.Run.{Files}

-- What `main` runs: `bad` prints the usage and exits with the status 2.
pub data Command : Type 0 where
  test : Command
  crawl : Command
  recrawl : Command
  compare : Command
  merge : Command
  info : Command
  sweep : Command
  dump_file : Command
  help : Command
  bad : Command

abbrev pub commands : List (Bytes × Command)
commands =
    (codes "test", test)
    ∷ (codes "crawl", crawl)
    ∷ (codes "recrawl", recrawl)
    ∷ (codes "compare", compare)
    ∷ (codes "merge", merge)
    ∷ (codes "info", info)
    ∷ (codes "sweep", sweep)
    ∷ (codes "dump", dump_file)
    ∷ (codes "-h", help)
    ∷ (codes "--help", help)
    ∷ (codes "help", help)
    ∷ []

unfoldable pub command_of : Bytes → List (Bytes × Command) → Command
command_of name [] = bad
command_of name ((word, c) ∷ rest) = if bytes_eq name word then c else command_of name rest

-- The arguments behind the program's name.
unfoldable pub main : List Bytes → Command × List Bytes
main [] = (bad, [])
main (name ∷ args) = (command_of name commands, args)

-- What `os.Stat` finds: a file, or a directory with its .rdnsz files in the order of the glob.
pub data PathKind : Type 0 where
  file : PathKind
  directory : List Bytes → PathKind

pub data InfoError : Type 0 where
  no_stat : Bytes → InfoError
  no_paths : InfoError
  unreadable : Bytes → InfoError
  bad_header : HeaderError → InfoError

-- An argument that begins with a dash.
unfoldable pub is_flag : Bytes → Bool
is_flag [] = false
is_flag (c ∷ s) = c == b'-'

unfoldable pub found_paths : Bytes → Option PathKind → Result InfoError (List Bytes)
found_paths a none = err (no_stat a)
found_paths a (some file) = ok (a ∷ [])
found_paths a (some (directory names)) = ok names

-- The loop over the arguments of `runInfo`.
unfoldable pub info_paths : (Bytes → Option PathKind) → List Bytes → Result InfoError (List Bytes)
unfolding found_paths
info_paths stat [] = ok []
info_paths stat (a ∷ args) = elim (is_flag a) [
  | true ↦ info_paths stat args
  | false ↦ do here ← found_paths a (stat a); more ← info_paths stat args; ok (here ++ more)
]

unfoldable pub info_header : Bytes → Option Bytes → Result InfoError Header
info_header name none = err (unreadable name)
info_header name (some content) = elim (read_header content) [
  | err e ↦ err (bad_header e)
  | ok h ↦ ok h
]

unfoldable pub info_headers : Files → List Bytes → Result InfoError (List Header)
unfolding info_header
info_headers files [] = ok []
info_headers files (name ∷ names) = do
  h ← info_header name (files name)
  hs ← info_headers files names
  ok (h ∷ hs)

unfoldable pub some_paths : List Bytes → Result InfoError (List Bytes)
some_paths [] = err no_paths
some_paths (name ∷ names) = ok (name ∷ names)

-- `runInfo`: the headers that it prints a line for, and the sums below them.
unfoldable pub run_info :
    (Bytes → Option PathKind) → Files → List Bytes → Result InfoError (List Header × InfoTotals)
unfolding info_paths info_headers some_paths
run_info stat files args = do
  found ← info_paths stat args
  paths ← some_paths found
  hs ← info_headers files paths
  ok (hs, info_totals hs)

-- The arguments of `runDump`: the flags, and the first other argument, which is the path.
unfoldable pub dump_args : List Bytes → List Bytes × Bytes
dump_args [] = ([], [])
dump_args (a ∷ args) =
    let (flags, path) = dump_args args in
    if is_flag a then (a ∷ flags, path) else if bytes_nil a then (flags, path) else (flags, a)

pub data DumpError : Type 0 where
  no_path : DumpError
  no_content : DumpError
  bad_dump_header : HeaderError → DumpError

-- How a dump ends: a truncated tail is a warning, any other error of the scan ends the program.
pub data DumpEnd : Type 0 where
  complete : DumpEnd
  truncated : DumpEnd
  fatal : Outcome → DumpEnd

unfoldable pub dump_end : Outcome → DumpEnd
dump_end finished = complete
dump_end (failed truncated_tail) = truncated
dump_end e = fatal e

unfoldable pub dump_content : Bytes → Option Bytes → Result DumpError Bytes
dump_content [] content = err no_path
dump_content (c ∷ path) none = err no_content
dump_content (c ∷ path) (some content) = ok content

unfoldable pub dump_header : Bytes → Result DumpError Header
dump_header content = elim (read_header content) [ err e ↦ err (bad_dump_header e) | ok h ↦ ok h ]

-- `runDump`: the header, the rows and the end. `parse_flags` is the flag package on the flags; it
-- gives `--compact` and `--text`.
unfoldable pub run_dump :
    (parse_flags : List Bytes → Bool × Bool)
    → Codec
    → Files
    → List Bytes
    → Result DumpError (Header × List Row × DumpEnd)
unfolding dump_content dump_header dump_end
run_dump parse_flags z files args = do
  let (flags, path) = dump_args args
  let (as_compact, as_text) = parse_flags flags
  content ← dump_content path (files path)
  h ← dump_header content
  let (rs, e) = scan z content
  ok (h, dump as_compact as_text rs, dump_end e)
