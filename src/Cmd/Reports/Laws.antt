-- ===== src/Cmd/Reports/Laws.antt =====
-- cmd/rdns-crawler/main.go: what `dump` gives back of a file that the writer closed.
use mathlib.Core.List.{Permᴰ}
use mathlib.Core.List.Permᴰ
use r_dns_crawler.Base.{
  ℕ, ◌≡◌, refl, sym, ap, subst, Bool, true, false, List, [], ◌∷◌, Option, some, none, Bytes, take,
  map, All, if◌then◌else◌,
}
use r_dns_crawler.Model.Record.{Record}
use r_dns_crawler.Model.Status.{code, has_ptr, status_string, status_to_code}
use r_dns_crawler.Model.Status.Laws.{status_to_code-some}
use r_dns_crawler.Ipgen.Address.{int_to_ip}
use r_dns_crawler.Store.Codec.{Codec}
use r_dns_crawler.Store.Block.{Rec, max_ptr_names}
use r_dns_crawler.Store.Block.RoundTrip.{stored}
use r_dns_crawler.Store.Scan.{scan}
use r_dns_crawler.Store.Scan.Written.{IsBlock}
use r_dns_crawler.Store.Writer.{new_writer, consume, close}
use r_dns_crawler.Store.Writer.Written.{chunks}
use r_dns_crawler.Store.Writer.RoundTrip.{scan-close}
use r_dns_crawler.Cmd.Reports.{Row, json, dump_record, dump_rows, dump}

-- A record as the crawler makes it: its address printed, a known status, and names only with has_ptr.
pub record IsCrawled (r : Record) : Type 0 where
  pub printed : r.ip ≡ int_to_ip r.ip_int
  pub known : (c : ℕ) × (status_to_code r.status ≡ some c)
  pub its_names : (if has_ptr r.status then r.ptr else []) ≡ r.ptr

-- The record without what the store leaves out: the names behind the first 32, and what is known of
-- the lookup beside its outcome.
abbrev pub kept : Record → Record
kept r = record r {
  ptr = take max_ptr_names r.ptr;
  resolver = [];
  attempts = 0;
  latency_ms = 0;
  rcode = [];
  error = [];
  ts = [];
}

status_string-code : (s : Bytes) (c : ℕ) → status_to_code s ≡ some c → status_string (code s) ≡ s
unfolding code
status_string-code s c h = rw (h, code) ((status_to_code-some s c h).1)

answer_back :
    (o : Option Bool)
    → (if (elim o [ none ↦ false | some m ↦ true ])
        then some (elim o [ none ↦ false | some m ↦ m ])
        else none)
      ≡ o
answer_back none = refl
answer_back (some m) = refl

names_kept :
    (b : Bool) (names : List Bytes)
    → (if b then names else []) ≡ names
    → (if b then take max_ptr_names names else []) ≡ take max_ptr_names names
names_kept true names h = refl
names_kept false names h = subst (λ l. [] ≡ take max_ptr_names l) h refl

dump_record-stored : (r : Record) → IsCrawled r → dump_record (stored r) ≡ kept r
unfolding dump_record
dump_record-stored r v =
    rw
      (
        sym v.printed,
        status_string-code r.status v.known.0 v.known.1,
        names_kept (has_ptr r.status) r.ptr v.its_names,
        answer_back r.f_cr_dns,
      )
      refl

dump-map : (rs : List Rec) → dump false false rs ≡ map (λ r. json (dump_record r)) rs
unfolding dump dump_rows
dump-map [] = refl
dump-map (r ∷ rs) = ap (λ l. json (dump_record r) ∷ l) (dump-map rs)

map-stored :
    (rs : List Record)
    → All IsCrawled rs
    → map (λ r. json (dump_record r)) (map stored rs) ≡ map (λ r. json (kept r)) rs
map-stored [] v = refl
map-stored (r ∷ rs) v = cong2 (dump_record-stored r v.0) (map-stored rs v.1)
  where
    cong2 : {a b : Record} {l k : List Row} → a ≡ b → l ≡ k → json a ∷ l ≡ json b ∷ k
    cong2 e e' = cc

-- For records with their address printed, a known status and names only with has_ptr, when their blocks
-- are storable and fit the block headers, and the sort permutes its block: `dump` of the file that a
-- writer closed prints one JSON row for each record, as often as it was added, and the row has the
-- record's address, number, status, forward confirmation and its first 32 names; further names are lost,
-- and the resolver, the attempts, the latency, the rcode, the error and the time are blank.
pub dump-close :
    (z : Codec) (sort_slice : List Record → List Record)
    (sort_perm : (l : List Record) → Permᴰ (sort_slice l) l) (shards shard_id now : ℕ)
    (rs : List Record)
    → All IsCrawled rs
    → All (IsBlock z) (map sort_slice (chunks rs))
    → Permᴰ
        (dump false false
          (scan z
            (close z sort_slice (consume z sort_slice (new_writer shards shard_id now) rs))).0)
        (map (λ r. json (kept r)) rs)
dump-close z sort_slice sort_perm shards shard_id now rs crawled fits =
    let back = scan-close z sort_slice sort_perm shards shard_id now rs fits in
    let rows : Permᴰ (dump false false back.0) (map (λ r. json (kept r)) rs) =
      rw (dump-map back.0) (
        subst (λ l. Permᴰ (map (λ r. json (dump_record r)) back.0) l) (map-stored rs crawled)
          (Permᴰ.map (λ r. json (dump_record r)) back.2)) in
    subst (λ s. Permᴰ (dump false false s) (map (λ r. json (kept r)) rs))
      (sym (ap (λ p. p.0) back.1)) rows
