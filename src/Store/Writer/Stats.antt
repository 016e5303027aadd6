-- ===== src/Store/Writer/Stats.antt =====
-- internal/store/writer.go: the running statistics of a writer.
use r_dns_crawler.Base.{
  ℕ, ◌+◌, ◌^◌, ◌%◌, ◌≤◌, ◌<◌, ◌≡◌, refl, ◌∙◌, List, [], ◌∷◌, length, leb, ◌==◌, arith,
  if◌then◌else◌, Bool-cases, inl, inr,
}
use r_dns_crawler.Base.Counters.{count_at, count_at-bump_at, length-bump_at, count_at-zeros}
use r_dns_crawler.Model.Record.{Record}
use r_dns_crawler.Model.Status.{code, num_status_codes}
use r_dns_crawler.Model.Status.Laws.{code-lt}
use r_dns_crawler.Store.Codec.{Codec}
use r_dns_crawler.Store.Writer.{Writer, block_recs, new_writer, tally, flush_block, add, consume}

-- How many records have the status code `c`.
abbrev pub count_code : ℕ → List Record → ℕ
count_code c [] = 0
count_code c (r ∷ rs) = (if code r.status == c then 1 else 0) + count_code c rs

-- What `n` records more make of the statistics of a writer.
pub record Grew (w w' : Writer) (rs : List Record) : Type 0 where
  pub same_shards : w'.shards ≡ w.shards
  pub same_shard_id : w'.shard_id ≡ w.shard_id
  pub same_start : w'.start ≡ w.start
  pub total_grew : w'.total ≡ (w.total + length rs) % 2 ^ 64
  pub counts_length : length w'.counts ≡ num_status_codes
  pub counts_grew :
      (c : ℕ) → count_at c w'.counts ≡ (count_at c w.counts + count_code c rs) % 2 ^ 64

-- A writer's counters are uint64, one for each status.
pub record IsWriter (w : Writer) : Type 0 where
  pub total_fits : w.total < 2 ^ 64
  pub eight_counts : length w.counts ≡ num_status_codes
  pub counts_fit : (c : ℕ) → count_at c w.counts < 2 ^ 64

Grew-tally : (w : Writer) (r : Record) → IsWriter w → Grew w (tally w r) (r ∷ [])
unfolding tally
Grew-tally w r v = record {
  same_shards = refl;
  same_shard_id = refl;
  same_start = refl;
  total_grew = refl;
  counts_length = length-bump_at (code r.status) w.counts ∙ v.eight_counts;
  counts_grew = λ c. ground (
    arith,
    code-lt r.status,
    v.counts_fit c,
    count_at-bump_at (code r.status) c w.counts,
    v.eight_counts,
  );
}

module _ (z : Codec) (sort_slice : List Record → List Record) where
  Grew-flush :
      (w w' : Writer) (rs : List Record) → Grew w w' rs → Grew w (flush_block z sort_slice w') rs
  unfolding flush_block
  Grew-flush w w' rs g = by_buf w'.buf refl
    where
      by_buf : (b : List Record) → w'.buf ≡ b → Grew w (flush_block z sort_slice w') rs
      by_buf [] e = rw (flush_block, e) g
      by_buf (r ∷ b) e =
          rw (flush_block, e)
            (record {
              same_shards = g.same_shards;
              same_shard_id = g.same_shard_id;
              same_start = g.same_start;
              total_grew = g.total_grew;
              counts_length = g.counts_length;
              counts_grew = g.counts_grew;
            })

  Grew-add : (w : Writer) (r : Record) → IsWriter w → Grew w (add z sort_slice w r) (r ∷ [])
  unfolding add
  Grew-add w r v = elim (Bool-cases (leb block_recs (length (tally w r).buf))) [
    | inl full ↦ rw full (Grew-flush w (tally w r) (r ∷ []) (Grew-tally w r v))
    | inr room ↦ rw room (Grew-tally w r v)
  ]

  pub Grew-IsWriter : (w w' : Writer) (rs : List Record) → Grew w w' rs → IsWriter w'
  Grew-IsWriter w w' rs g = record {
    total_fits = omega (arith, g.total_grew);
    eight_counts = g.counts_length;
    counts_fit = λ c. omega (arith, g.counts_grew c);
  }

  Grew-trans :
      (w w' w'' : Writer) (r : Record) (rs : List Record)
      → Grew w w' (r ∷ [])
      → Grew w' w'' rs
      → Grew w w'' (r ∷ rs)
  Grew-trans w w' w'' r rs g h = record {
    same_shards = h.same_shards ∙ g.same_shards;
    same_shard_id = h.same_shard_id ∙ g.same_shard_id;
    same_start = h.same_start ∙ g.same_start;
    total_grew = omega (arith, g.total_grew, h.total_grew);
    counts_length = h.counts_length;
    counts_grew = λ c. omega (arith, g.counts_grew c, h.counts_grew c);
  }

  consume-Grew :
      (rs : List Record) (w : Writer) → IsWriter w → Grew w (consume z sort_slice w rs) rs
  unfolding consume
  consume-Grew [] w v = record {
    same_shards = refl;
    same_shard_id = refl;
    same_start = refl;
    total_grew = omega (arith, v.total_fits);
    counts_length = v.eight_counts;
    counts_grew = λ c. omega (arith, v.counts_fit c);
  }
  consume-Grew (r ∷ rs) w v =
      let g = Grew-add w r v in
      Grew-trans w (add z sort_slice w r) _ r rs g
        (consume-Grew rs (add z sort_slice w r) (Grew-IsWriter w _ (r ∷ []) g))

  -- The statistics that `Close` writes into the header.
  pub final-Grew :
      (rs : List Record) (w : Writer)
      → IsWriter w
      → Grew w (flush_block z sort_slice (consume z sort_slice w rs)) rs
  final-Grew rs w v = Grew-flush w (consume z sort_slice w rs) rs (consume-Grew rs w v)

pub new_writer-IsWriter : (shards shard_id now : ℕ) → IsWriter (new_writer shards shard_id now)
unfolding new_writer
new_writer-IsWriter shards shard_id now = record {
  total_fits = omega arith;
  eight_counts = refl;
  counts_fit = λ c. omega (arith, count_at-zeros 8 c);
}

pub count_code-le : (c : ℕ) (rs : List Record) → count_code c rs ≤ length rs
count_code-le c [] = omega arith
count_code-le c (r ∷ rs) = ground (arith, count_code-le c rs)
