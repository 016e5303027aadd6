-- ===== src/Store/Writer/RoundTrip.antt =====
-- internal/store/writer.go and reader.go: from a run of the writer to `Scan` and `ReadHeader`.
use mathlib.Core.List.{Permᴰ, map-append}
use mathlib.Core.List.Permᴰ
use r_dns_crawler.Base.{
  ℕ, ◌^◌, ◌<◌, ◌≡◌, refl, List, [], ◌∷◌, ◌++◌, length, All, append_assoc, arith, map, lt→ltb,
}
use r_dns_crawler.Base.Counters.{zeros, All-of_count_at, count_at-zeros}
use r_dns_crawler.Base.Results.{ok}
use r_dns_crawler.Model.Record.{Record}
use r_dns_crawler.Store.Codec.{Codec}
use r_dns_crawler.Store.Header.{Header, read_header, count}
use r_dns_crawler.Store.Header.RoundTrip.{IsHeader, length-header, read_header-header}
use r_dns_crawler.Store.Block.{Rec, finished}
use r_dns_crawler.Store.Block.RoundTrip.{stored}
use r_dns_crawler.Store.Scan.{scan}
use r_dns_crawler.Store.Scan.Written.{IsBlock, stored_blocks, scan_whole}
use r_dns_crawler.Store.Writer.{Writer, new_writer, header_of, flush_block, consume, close}
use r_dns_crawler.Store.Writer.Stats.{
  Grew, IsWriter, Grew-IsWriter, final-Grew, new_writer-IsWriter, count_code, count_code-le,
}
use r_dns_crawler.Store.Writer.Written.{chunks, concat, concat-chunk_from, close-blocks}

pub stored_blocks-append :
    (gs hs : List (List Record)) (z : Codec)
    → stored_blocks z (gs ++ hs) ≡ stored_blocks z gs ++ stored_blocks z hs
stored_blocks-append [] hs z = refl
stored_blocks-append (g ∷ gs) hs z = simp (stored_blocks-append gs hs z, append_assoc)

module _ (z : Codec) (sort_slice : List Record → List Record)
    (sort_perm : (l : List Record) → Permᴰ (sort_slice l) l) where
  pub stored_blocks-perm :
      (gs : List (List Record))
      → Permᴰ (stored_blocks z (map sort_slice gs)) (map stored (concat gs))
  stored_blocks-perm [] = Permᴰ.nil
  stored_blocks-perm (g ∷ gs) = rw map-append (
      Permᴰ.trans (Permᴰ.append_right _ (Permᴰ.map stored (sort_perm g)))
        (Permᴰ.append_left _ (stored_blocks-perm gs)))

  -- The writer's fields fit the header once its counters are in range.
  pub header_of-IsHeader :
      (w : Writer)
      → IsWriter w
      → w.shards < 2 ^ 16
      → w.shard_id < 2 ^ 16
      → w.start < 2 ^ 64
      → IsHeader (header_of w)
  header_of-IsHeader w v h1 h2 h3 = record {
    versioned = refl;
    shards_fit = h1;
    shard_id_fits = h2;
    created_fits = h3;
    total_fits = v.total_fits;
    all_counts = v.eight_counts;
    counts_fit = All-of_count_at (2 ^ 64) w.counts v.counts_fit;
  }

  -- A run of the writer on a new file, up to the scan of the closed file: `Scan` ends without an
  -- error, and what it delivers is what the store keeps of the records, each as often as it was
  -- added. The order within a block is that of the sort. The blocks' records must be storable and
  -- their payloads fit the block headers.
  pub scan-close :
      (shards shard_id now : ℕ) (rs : List Record)
      → All (IsBlock z) (map sort_slice (chunks rs))
      → (out : List Rec) × (scan z
            (close z sort_slice (consume z sort_slice (new_writer shards shard_id now) rs))
          ≡ (out, finished))
        × Permᴰ out (map stored rs)
  unfolding new_writer
  scan-close shards shard_id now rs h =
      let w = new_writer shards shard_id now in
      (
        stored_blocks z (map sort_slice (chunks rs)),
        rw (close-blocks z sort_slice w (zeros 128) [] rs refl refl) (
            scan_whole z _ (map sort_slice (chunks rs))
              (length-header _
                (final-Grew z sort_slice rs w
                  (new_writer-IsWriter shards shard_id now)).counts_length)
              h),
        rw (concat-chunk_from [] rs) at (stored_blocks-perm (chunks rs)),
      )

  -- For a shard and a start time that fit their fields and fewer than 2 ^ 64 records: the header that
  -- `Close` writes over a new file has the shard's identity, the start time, the number of the
  -- records, and for a status code `c` below 8 the number of the records that have it.
  pub read_header-close :
      (shards shard_id now : ℕ) (rs : List Record) (c : ℕ)
      → shards < 2 ^ 16
      → shard_id < 2 ^ 16
      → now < 2 ^ 64
      → length rs < 2 ^ 64
      → c < 8
      → (h : Header) × (read_header
            (close z sort_slice (consume z sort_slice (new_writer shards shard_id now) rs))
          ≡ ok h)
        × (h.shards ≡ shards)
        × (h.shard_id ≡ shard_id)
        × (h.created ≡ now)
        × (h.total ≡ length rs)
        × (count h c ≡ count_code c rs)
  unfolding new_writer count
  read_header-close shards shard_id now rs c h1 h2 h3 h4 hc = (
    header_of final,
    rw (close-blocks z sort_slice w (zeros 128) [] rs refl refl) (
        read_header-header (header_of final) _
          (header_of-IsHeader final (Grew-IsWriter z sort_slice w final rs g) h1' h2' h3')),
    g.same_shards,
    g.same_shard_id,
    g.same_start,
    omega (arith, g.total_grew),
    rw (lt→ltb c 8 hc) (omega (arith, g.counts_grew c, count_at-zeros 8 c, count_code-le c rs)),
  )
    where
      w : Writer
      w = new_writer shards shard_id now

      final : Writer
      final = flush_block z sort_slice (consume z sort_slice w rs)

      g : Grew w final rs
      g = final-Grew z sort_slice rs w (new_writer-IsWriter shards shard_id now)

      h1' : final.shards < 2 ^ 16
      h1' = omega (arith, g.same_shards)

      h2' : final.shard_id < 2 ^ 16
      h2' = omega (arith, g.same_shard_id)

      h3' : final.start < 2 ^ 64
      h3' = omega (arith, g.same_start)
