-- ===== src/Store/Writer/Resume.antt =====
-- internal/store/writer.go, `NewWriterResume`: a run that appends to the file of an earlier run.
use mathlib.Core.List.{Permᴰ}
use r_dns_crawler.Base.{
  ℕ, ◌+◌, ◌^◌, ◌%◌, ◌<◌, ◌≡◌, refl, sym, ap, ◌∙◌, List, [], ◌++◌, some, length, length-append, All,
  All-append, Bytes, arith, map, ltb, lt→ltb, le→ltb, false, eq→==,
}
use r_dns_crawler.Base.Counters.{count_at-lt}
use r_dns_crawler.Base.Results.{ok, err}
use r_dns_crawler.Model.Record.{Record}
use r_dns_crawler.Store.Codec.{Codec}
use r_dns_crawler.Store.Header.{Header, header, read_header, count}
use r_dns_crawler.Store.Header.RoundTrip.{IsHeader, length-header, read_header-header}
use r_dns_crawler.Store.Block.{Rec, finished}
use r_dns_crawler.Store.Block.RoundTrip.{stored}
use r_dns_crawler.Store.Scan.{scan}
use r_dns_crawler.Store.Scan.Written.{IsBlock, blocks, stored_blocks, scan_whole}
use r_dns_crawler.Store.Writer.{
  Writer, other_shard, new_writer, new_writer_resume, resume_from, header_of, flush_block, consume,
  close,
}
use r_dns_crawler.Store.Writer.Stats.{Grew, IsWriter, Grew-IsWriter, final-Grew, count_code}
use r_dns_crawler.Store.Writer.Written.{chunks, concat-chunk_from, blocks-append, close-blocks}
use r_dns_crawler.Store.Writer.RoundTrip.{
  stored_blocks-append, stored_blocks-perm, header_of-IsHeader,
}

-- The file of an earlier run: its header and its blocks.
abbrev pub earlier_file : Codec → Header → List (List Record) → Bytes
earlier_file z h gs = header h ++ blocks z gs

module _ (z : Codec) (h : Header) (gs : List (List Record)) (v : IsHeader h) (now : ℕ) where
  long_file : ltb (length (earlier_file z h gs)) 128 ≡ false
  long_file =
      le→ltb _ _
        (omega (arith, length-append (header h) (blocks z gs), length-header h v.all_counts))

  resume_same_shard :
      new_writer_resume (some (earlier_file z h gs)) h.shards h.shard_id now
      ≡ ok (resume_from (earlier_file z h gs) h h.shards h.shard_id now)
  unfolding new_writer_resume
  resume_same_shard = rw (
    long_file,
    read_header-header h (blocks z gs) v,
    eq→== h.shards h.shards refl,
    eq→== h.shard_id h.shard_id refl,
  )

  -- A file of another shard is refused, so a wrong output path does not overwrite it.
  pub resume_other_shard :
      (shards shard_id : ℕ)
      → ((h.shards ≡ shards) × (h.shard_id ≡ shard_id) → ⊥)
      → new_writer_resume (some (earlier_file z h gs)) shards shard_id now
        ≡ err (other_shard h.shard_id h.shards)
  unfolding new_writer_resume
  resume_other_shard shards shard_id differ =
      rw (long_file, read_header-header h (blocks z gs) v) (ground arith)

module _ (z : Codec) (sort_slice : List Record → List Record)
    (sort_perm : (l : List Record) → Permᴰ (sort_slice l) l) (h : Header) (gs : List (List Record))
    (v : IsHeader h) (now : ℕ) (hnow : now < 2 ^ 64) where
  abbrev resumed : Writer
  resumed = resume_from (earlier_file z h gs) h h.shards h.shard_id now

  resumed-IsWriter : IsWriter resumed
  unfolding resume_from new_writer
  resumed-IsWriter = record {
    total_fits = v.total_fits;
    eight_counts = v.all_counts;
    counts_fit = λ c. count_at-lt (2 ^ 64) c h.counts (omega arith) v.counts_fit;
  }

  resumed_start : resumed.start < 2 ^ 64
  unfolding resume_from new_writer
  resumed_start = ground (arith, v.created_fits)

  resumed-Grew :
      (rs : List Record)
      → Grew resumed (flush_block z sort_slice (consume z sort_slice resumed rs)) rs
  resumed-Grew rs = final-Grew z sort_slice rs resumed resumed-IsWriter

  -- The blocks of both runs stand in the file.
  resumed-close :
      (rs : List Record)
      → close z sort_slice (consume z sort_slice resumed rs)
        ≡ header (header_of (flush_block z sort_slice (consume z sort_slice resumed rs)))
          ++ blocks z (gs ++ map sort_slice (chunks rs))
  unfolding resume_from new_writer
  resumed-close rs =
      close-blocks z sort_slice resumed (header h) (blocks z gs) rs (length-header h v.all_counts)
        refl
      ∙ ap
          (λ t.
            header (header_of (flush_block z sort_slice (consume z sort_slice resumed rs))) ++ t)
          (sym (blocks-append z gs (map sort_slice (chunks rs))))

  -- A run that resumes the file of an earlier run of its shard adds to it: `Scan` delivers what it
  -- delivered before, and then what the store keeps of the new records, each as often as it was
  -- added. The earlier blocks and the new ones must be storable.
  pub scan-resume :
      (rs : List Record)
      → All (IsBlock z) gs
      → All (IsBlock z) (map sort_slice (chunks rs))
      → (w : Writer) × (new_writer_resume (some (earlier_file z h gs)) h.shards h.shard_id now
          ≡ ok w)
        × (out : List Rec) × (scan z (earlier_file z h gs) ≡ (stored_blocks z gs, finished))
        × (scan z (close z sort_slice (consume z sort_slice w rs))
            ≡ (stored_blocks z gs ++ out, finished))
        × Permᴰ out (map stored rs)
  scan-resume rs hgs hrs = (
    resumed,
    resume_same_shard z h gs v now,
    stored_blocks z (map sort_slice (chunks rs)),
    scan_whole z (header h) gs (length-header h v.all_counts) hgs,
    rw (resumed-close rs, ← stored_blocks-append gs (map sort_slice (chunks rs)) z)
        (scan_whole z _ (gs ++ map sort_slice (chunks rs))
          (length-header _ (resumed-Grew rs).counts_length) (All-append (IsBlock z) gs _ hgs hrs)),
    rw (concat-chunk_from [] rs) at (stored_blocks-perm z sort_slice sort_perm (chunks rs)),
  )

  -- The total in the header, and the counter of a status code `c` below 8, are those of both runs
  -- together, modulo 2 ^ 64.
  pub read_header-resume :
      (rs : List Record) (c : ℕ)
      → c < 8
      → (w : Writer) × (new_writer_resume (some (earlier_file z h gs)) h.shards h.shard_id now
          ≡ ok w)
        × (h' : Header) × (read_header (close z sort_slice (consume z sort_slice w rs)) ≡ ok h')
        × (h'.shards ≡ h.shards)
        × (h'.shard_id ≡ h.shard_id)
        × (h'.total ≡ (h.total + length rs) % 2 ^ 64)
        × (count h' c ≡ (count h c + count_code c rs) % 2 ^ 64)
  unfolding count resume_from new_writer
  read_header-resume rs c hc =
      let final = flush_block z sort_slice (consume z sort_slice resumed rs) in
      let g = resumed-Grew rs in
      (
        resumed,
        resume_same_shard z h gs v now,
        header_of final,
        rw (resumed-close rs) (
            read_header-header (header_of final) _ (
              header_of-IsHeader z sort_slice sort_perm final
                (Grew-IsWriter z sort_slice resumed final rs g)
                (omega (arith, g.same_shards, v.shards_fit))
                (omega (arith, g.same_shard_id, v.shard_id_fits))
                (omega (arith, g.same_start, resumed_start)))),
        g.same_shards,
        g.same_shard_id,
        g.total_grew,
        rw (lt→ltb c 8 hc) (g.counts_grew c),
      )
