-- ===== src/Tests/Store.antt =====
-- internal/store: the codec of a block, its parts, and the scan, at concrete inputs.
use r_dns_crawler.Base.{
  ◌^◌, ◌<◌, ◌≡◌, ◌≢◌, refl, [], ◌∷◌, Bytes, codes, length, All, arith, map, bytes_eq, split,
  trim_space,
}
use r_dns_crawler.Base.Results.{ok}
use r_dns_crawler.Model.Status.{status_string, code, status_to_code}
use r_dns_crawler.Model.Status.Laws.{code-status_string}
use r_dns_crawler.Model.Mask.{parse_parts, parse_statuses, has}
use r_dns_crawler.Model.Mask.Laws.{IsListed, names_code, parse_statuses_sound}
use r_dns_crawler.Store.Template.{encode_template, decode_template}
use r_dns_crawler.Store.Template.Laws.{decode_template-encode_template}
use r_dns_crawler.Store.Varint.{append_uvarint}
use r_dns_crawler.Store.Block.{encode_block, decode_block, finished, stuck, panicked}
use r_dns_crawler.Store.Block.RoundTrip.{stored, decode_block-encode_block}
use r_dns_crawler.Store.Block.Total.{decode_block-ne-stuck}
use r_dns_crawler.Store.Block.Panics.{oversized_name, decode_block_panics}
use r_dns_crawler.Tests.Data.{two, two-IsStorable, two-length}

decode_block-encode_block_example : decode_block (encode_block two) ≡ (map stored two, finished)
decode_block-encode_block_example =
    decode_block-encode_block two two-IsStorable (omega (arith, two-length))

decode_block-ne-stuck_example : (decode_block (1 ∷ 2 ∷ 200 ∷ [])).1 ≢ stuck
decode_block-ne-stuck_example = decode_block-ne-stuck (1 ∷ 2 ∷ 200 ∷ [])

decode_template-encode_template_example :
    decode_template 16909060 (encode_template 16909060 (codes "4.3.2.1.pool"))
    ≡ codes "4.3.2.1.pool"
decode_template-encode_template_example =
    decode_template-encode_template 16909060 (codes "4.3.2.1.pool") (omega arith) (ground arith)

abbrev csv : Bytes
csv = codes "timeout, servfail"

accepted : parse_statuses csv ≡ ok 40
unfolding parse_statuses parse_parts split trim_space bytes_eq status_to_code
accepted = refl

parse_statuses_sound_example :
    (0 < 40)
    × (40 < 256)
    × All IsListed (split csv b',')
    × (has 40 5 ≡ names_code 5 (split csv b','))
parse_statuses_sound_example = parse_statuses_sound csv 40 5 accepted (omega arith)

code-status_string_example : code (status_string 5) ≡ 5
code-status_string_example = code-status_string 5 (omega arith)

short : length (oversized_name 16909060 0 (2 ^ 63) []) < 100
unfolding append_uvarint
short = omega arith

decode_block_panics_example : decode_block (oversized_name 16909060 0 (2 ^ 63) []) ≡ ([], panicked)
decode_block_panics_example =
    decode_block_panics 16909060 0 (2 ^ 63) [] (omega arith) (omega arith) (omega arith)
      (omega (arith, short)) (omega (arith, short))
