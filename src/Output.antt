-- ===== src/Output.antt =====
-- internal/output/output.go: the statistics that the JSONL writer keeps beside the file. The lines of
-- the file are the records written, in order.
pub mod Samples
pub mod Laws
pub mod Summary
use r_dns_crawler.Base.{
  ℕ, ◌+◌, ◌%◌, ◌^◌, Bool, true, List, [], ◌∷◌, ◌++◌, Option, some, none, Bytes, length, ltb,
  if◌then◌else◌, map, take,
}
use r_dns_crawler.Base.Counters.{bump_at, zeros}
use r_dns_crawler.Base.Hosts.{tld_of, bump_keys}
use r_dns_crawler.Model.Record.{Record}
use r_dns_crawler.Model.Status.{code, has_ptr, num_status_codes}

abbrev pub max_samples : ℕ
max_samples = 20

-- `Writer` with the lines encoded so far; its counters are ints, as bit patterns of 64 bits.
pub record JsonWriter : Type 0 where
  pub lines : List Record
  pub total : ℕ
  pub by_code : List ℕ
  pub fc_checked : ℕ
  pub fc_match : ℕ
  pub tld_counts : List (Bytes × ℕ)
  pub samples : List Record

unfoldable pub new : JsonWriter
new = record {
  lines = [];
  total = 0;
  by_code = zeros num_status_codes;
  fc_checked = 0;
  fc_match = 0;
  tld_counts = [];
  samples = [];
}

abbrev up : ℕ → ℕ
up n = (n + 1) % 2 ^ 64

unfoldable pub count_ptr : Record → JsonWriter → JsonWriter
count_ptr rec w =
    if has_ptr rec.status
    then record w {
      samples = if ltb (length w.samples) max_samples then w.samples ++ (rec ∷ []) else w.samples;
      tld_counts = bump_keys (map tld_of rec.ptr) w.tld_counts;
    }
    else w

unfoldable pub count_check : Option Bool → JsonWriter → JsonWriter
count_check none w = w
count_check (some m) w =
    let w' = record w { fc_checked = up w.fc_checked } in
    if m then record w' { fc_match = up w.fc_match } else w'

unfoldable pub write : JsonWriter → Record → JsonWriter
unfolding count_ptr count_check
write w rec = count_check rec.f_cr_dns (
    count_ptr rec (record w {
      lines = w.lines ++ (rec ∷ []);
      total = up w.total;
      by_code = bump_at (code rec.status) w.by_code;
    }))

unfoldable pub consume : JsonWriter → List Record → JsonWriter
consume w [] = w
consume w (rec ∷ recs) = consume (write w rec) recs

-- `topN`: `sort.Slice` by count, and by key among equals, is a parameter.
unfoldable pub top_n :
    (List (Bytes × ℕ) → List (Bytes × ℕ)) → List (Bytes × ℕ) → ℕ → List (Bytes × ℕ)
top_n sort_slice m n = take n (sort_slice m)
