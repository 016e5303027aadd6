-- ===== src/Store/Header/RoundTrip.antt =====
-- internal/store/writer.go and reader.go: the header of `Close` under `ReadHeader`.
use r_dns_crawler.Base.{
  ℕ, zero, suc, ◌*◌, ◌^◌, ◌<◌, ◌≡◌, refl, sym, ap, ◌∙◌, List, [], ◌∷◌, ◌++◌, Bytes, bytes_eq,
  length, length-append, drop, drop_of_append, append_assoc, All, arith, false, ltb, le→ltb,
}
use r_dns_crawler.Base.Counters.{zeros}
use r_dns_crawler.Base.Results.{ok}
use r_dns_crawler.Model.Status.{num_status_codes}
use r_dns_crawler.Store.Words.{put_le, get_le, length-put_le, get_le-put_le}
use r_dns_crawler.Store.Header.{Header, format_ver, header, read_header, put_counts, get_counts}

-- The fields fit their widths, and there is a counter for each status.
pub record IsHeader (h : Header) : Type 0 where
  pub versioned : h.version ≡ format_ver
  pub shards_fit : h.shards < 2 ^ 16
  pub shard_id_fits : h.shard_id < 2 ^ 16
  pub created_fits : h.created < 2 ^ 64
  pub total_fits : h.total < 2 ^ 64
  pub all_counts : length h.counts ≡ num_status_codes
  pub counts_fit : All (λ n. n < 2 ^ 64) h.counts

drop_word : (k v : ℕ) (rest : Bytes) → drop k (put_le k v ++ rest) ≡ rest
drop_word k v rest =
    ap (λ n. drop n (put_le k v ++ rest)) (sym (length-put_le k v))
    ∙ drop_of_append (put_le k v) rest

get_counts-put_counts :
    (counts : List ℕ) (n : ℕ) (rest : Bytes)
    → length counts ≡ n
    → All (λ c. c < 2 ^ 64) counts
    → get_counts n (put_counts counts ++ rest) ≡ counts
unfolding get_counts put_counts
get_counts-put_counts [] zero rest e h = refl
get_counts-put_counts [] (suc n) rest e h = absurd (omega arith)
get_counts-put_counts (c ∷ counts) zero rest e h = absurd (omega arith)
get_counts-put_counts (c ∷ counts) (suc n) rest e h = rw (
  append_assoc,
  get_le-put_le 8 c _ (omega arith),
  drop_word 8 c,
  get_counts-put_counts counts n rest (omega arith) h.1,
)

pub length-put_counts : (counts : List ℕ) → length (put_counts counts) ≡ 8 * length counts
unfolding put_counts
length-put_counts [] = refl
length-put_counts (c ∷ counts) = omega (
  arith,
  length-append (put_le 8 c) (put_counts counts),
  length-put_le 8 c,
  length-put_counts counts,
)

pub length-header : (h : Header) → length h.counts ≡ num_status_codes → length (header h) ≡ 128
unfolding header put_le
length-header h e =
    omega (arith, length-append (put_counts h.counts) (zeros 38), length-put_counts h.counts)

-- The header that `Close` writes is read back field by field, whatever follows it in the file.
pub read_header-header :
    (h : Header) (rest : Bytes) → IsHeader h → read_header (header h ++ rest) ≡ ok h
unfolding read_header header put_le get_le bytes_eq
read_header-header h rest v =
    let long : ltb (length (header h ++ rest)) 128 ≡ false =
      le→ltb _ _ (omega (arith, length-append (header h) rest, length-header h v.all_counts)) in
    rw (long, append_assoc)
      (λ i. ok (record {
        version = sym v.versioned i;
        shards = fits2 h.shards v.shards_fit i;
        shard_id = fits2 h.shard_id v.shard_id_fits i;
        total = fits8 h.total v.total_fits i;
        counts =
            get_counts-put_counts h.counts num_status_codes (zeros 38 ++ rest) v.all_counts
              v.counts_fit i;
        created = fits8 h.created v.created_fits i;
      }))
  where
    fits2 : (n : ℕ) → n < 2 ^ 16 → get_le 2 (put_le 2 n) ≡ n
    fits2 n lt = omega arith

    fits8 : (n : ℕ) → n < 2 ^ 64 → get_le 8 (put_le 8 n) ≡ n
    fits8 n lt = omega arith
