-- ===== src/Tests/Commands.antt =====
-- internal/output and cmd/rdns-crawler: the commands at concrete inputs.
use mathlib.Core.List.{Permᴰ}
use mathlib.Core.List.Permᴰ
use r_dns_crawler.Base.{
  ◌%◌, ◌^◌, ◌-◌, ◌≡◌, ◌≢◌, refl, true, false, List, [], some, none, codes, length, All, arith, map,
  take, drop, bytes_eq,
}
use r_dns_crawler.Base.Counters.{zeros}
use r_dns_crawler.Base.Results.{Ensures}
use r_dns_crawler.Model.Record.{Record}
use r_dns_crawler.Model.Status.{num_status_codes, has_ptr, status_to_code}
use r_dns_crawler.Store.Codec.{copying}
use r_dns_crawler.Store.Block.{finished}
use r_dns_crawler.Store.Scan.{scan}
use r_dns_crawler.Store.Scan.Written.{IsBlock}
use r_dns_crawler.Store.Writer.{new_writer, close}
use r_dns_crawler.Store.Writer as Writer
use r_dns_crawler.Store.Writer.Written.{chunks, chunk_from}
use r_dns_crawler.Store.Targets.{stream_targets}
use r_dns_crawler.Store.Targets.Delivered.{delivered, targets, quota}
use r_dns_crawler.Resolver.{pos}
use r_dns_crawler.Output.{new, consume}
use r_dns_crawler.Output.Samples.{named}
use r_dns_crawler.Output.Laws.{histogram, checked, matched, consume_lem}
use r_dns_crawler.Cmd.Cursor.{write_count_cursor, read_count_cursor, recrawl_skip}
use r_dns_crawler.Cmd.Cursor.Laws.{recrawl_resume}
use r_dns_crawler.Cmd.Setup.{resolver_list}
use r_dns_crawler.Cmd.Setup.Laws.{IsUsable, resolver_list_lem}
use r_dns_crawler.Cmd.Reports.{dump, json}
use r_dns_crawler.Cmd.Reports.Laws.{IsCrawled, kept, dump-close}
use r_dns_crawler.Tests.Data.{two, two-IsBlock, pass, records, pass-scan}

consume_lem_example :
    ((consume new two).lines ≡ two)
    × ((consume new two).total ≡ length two % 2 ^ 64)
    × ((consume new two).by_code ≡ histogram (zeros num_status_codes) two)
    × ((consume new two).samples ≡ take 20 (named two))
    × ((consume new two).fc_checked ≡ checked two % 2 ^ 64)
    × ((consume new two).fc_match ≡ matched two % 2 ^ 64)
consume_lem_example = consume_lem two

-- The second target of a pass of two, after a cursor of one more than the interval.
recrawl_resume_example :
    delivered
      (stream_targets copying pass 4
        (recrawl_skip true (read_count_cursor (some (write_count_cursor 131073 200000))))
        0
        0
        9).events
    ≡ take (quota 0 9 0) (drop (131073 - 131072) (targets 4 records))
recrawl_resume_example =
    recrawl_resume copying pass 4 0 200000 9 131073 records finished (omega arith) pass-scan
      (omega arith)

resolver_list_lem_example :
    Ensures
      (IsUsable (pos 2) (some (some (codes " 9.9.9.9 "))))
      (λ e. some (some (codes " 9.9.9.9 ")) ≢ none)
      (resolver_list (some (some (codes " 9.9.9.9 "))) [])
resolver_list_lem_example = resolver_list_lem (pos 2) (some (some (codes " 9.9.9.9 "))) []

two-IsCrawled : All IsCrawled two
unfolding status_to_code has_ptr bytes_eq
two-IsCrawled = (
  record { printed = refl; known = (0, refl); its_names = refl },
  (record { printed = refl; known = (2, refl); its_names = refl }, tt),
)

abbrev in_order : List Record → List Record
in_order l = l

fits : All (IsBlock copying) (map in_order (chunks two))
unfolding chunk_from
fits = (two-IsBlock, tt)

dump-close_example :
    Permᴰ
      (dump false false
        (scan copying (
          close copying in_order
            (Writer.consume copying in_order (new_writer 7 2 1700000000) two))).0)
      (map (λ r. json (kept r)) two)
dump-close_example =
    dump-close copying in_order (λ l. Permᴰ.refl l) 7 2 1700000000 two two-IsCrawled fits
