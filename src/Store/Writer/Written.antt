-- ===== src/Store/Writer/Written.antt =====
-- internal/store/writer.go and reader.go: what is on disk after `Close`, and what `Scan` and
-- `ReadHeader` make of it.
use r_dns_crawler.Base.{
  ◌≡◌, refl, sym, ap, ◌∙◌, List, [], ◌∷◌, ◌++◌, Bytes, length, true, false, leb, drop,
  drop_of_append, append_assoc, append-nil, map, Bool-cases, inl, inr,
}
use r_dns_crawler.Model.Record.{Record}
use r_dns_crawler.Store.Codec.{Codec}
use r_dns_crawler.Store.Header.{header}
use r_dns_crawler.Store.Scan.{block_bytes}
use r_dns_crawler.Store.Scan.Written.{blocks}
use r_dns_crawler.Store.Writer.{
  Writer, block_recs, tally, header_of, flush_block, add, consume, close,
}

-- The records of a crawl in groups of 65536, the last one shorter; `cur` is the group that is not
-- full yet.
unfoldable pub chunk_from : List Record → List Record → List (List Record)
chunk_from cur (r ∷ rs) = elim (leb block_recs (length (cur ++ (r ∷ [])))) [
  | true ↦ (cur ++ (r ∷ [])) ∷ chunk_from [] rs
  | false ↦ chunk_from (cur ++ (r ∷ [])) rs
]
chunk_from [] [] = []
chunk_from (c ∷ cur) [] = (c ∷ cur) ∷ []

chunk_full :
    (cur rs : List Record) (r : Record)
    → leb block_recs (length (cur ++ (r ∷ []))) ≡ true
    → chunk_from cur (r ∷ rs) ≡ (cur ++ (r ∷ [])) ∷ chunk_from [] rs
unfolding chunk_from
chunk_full [] rs r full = cc
chunk_full (c ∷ cur) rs r full = rw (full, chunk_from)

chunk_room :
    (cur rs : List Record) (r : Record)
    → leb block_recs (length (cur ++ (r ∷ []))) ≡ false
    → chunk_from cur (r ∷ rs) ≡ chunk_from (cur ++ (r ∷ [])) rs
unfolding chunk_from
chunk_room [] rs r room = refl
chunk_room (c ∷ cur) rs r room = rw (room, chunk_from)

abbrev pub chunks : List Record → List (List Record)
chunks rs = chunk_from [] rs

abbrev pub concat {ℓ} : {A : Type ℓ} → List (List A) → List A
concat [] = []
concat (g ∷ gs) = g ++ concat gs

-- Grouping keeps every record, in order.
pub concat-chunk_from : (cur rs : List Record) → concat (chunk_from cur rs) ≡ cur ++ rs
unfolding chunk_from
concat-chunk_from [] [] = refl
concat-chunk_from (c ∷ cur) [] = refl
concat-chunk_from cur (r ∷ rs) = elim (Bool-cases (leb block_recs (length (cur ++ (r ∷ []))))) [
  | inl full ↦ rw (chunk_full cur rs r full, concat-chunk_from [] rs, append_assoc)
  | inr room ↦ rw (chunk_room cur rs r room, concat-chunk_from (cur ++ (r ∷ [])) rs, append_assoc)
]

pub blocks-append :
    (z : Codec) (gs hs : List (List Record)) → blocks z (gs ++ hs) ≡ blocks z gs ++ blocks z hs
blocks-append z [] hs = refl
blocks-append z (g ∷ gs) hs = simp (blocks-append z gs hs, append_assoc)

module _ (z : Codec) (sort_slice : List Record → List Record) where
  flush_block-file :
      (w : Writer)
      → (flush_block z sort_slice w).file
        ≡ w.file ++ blocks z (map sort_slice (chunk_from w.buf []))
  unfolding flush_block chunk_from
  flush_block-file w = by_buf w.buf refl
    where
      by_buf :
          (b : List Record)
          → w.buf ≡ b
          → (flush_block z sort_slice w).file
            ≡ w.file ++ blocks z (map sort_slice (chunk_from w.buf []))
      by_buf [] e = rw (flush_block, e) (sym (append-nil w.file))
      by_buf (r ∷ rs) e = rw (flush_block, e, append-nil) (rw e)

  -- A full buffer becomes one block.
  flush_block_full :
      (w : Writer) (b : List Record) (r : Record)
      → w.buf ≡ b ++ (r ∷ [])
      → flush_block z sort_slice w
        ≡ record w { file = w.file ++ block_bytes z (sort_slice (b ++ (r ∷ []))); buf = [] }
  unfolding flush_block
  flush_block_full w [] r e = rw (flush_block, e) (rw e)
  flush_block_full w (c ∷ b) r e = rw (flush_block, e) (rw e)

  add_full :
      (w : Writer) (r : Record)
      → leb block_recs (length (w.buf ++ (r ∷ []))) ≡ true
      → add z sort_slice w r ≡ record (tally w r) {
        file = w.file ++ block_bytes z (sort_slice (w.buf ++ (r ∷ [])));
        buf = [];
      }
  unfolding add tally
  add_full w r full = rw full (flush_block_full (tally w r) w.buf r refl)

  add_room :
      (w : Writer) (r : Record)
      → leb block_recs (length (w.buf ++ (r ∷ []))) ≡ false
      → add z sort_slice w r ≡ tally w r
  unfolding add tally
  add_room w r room = rw room

  consume-file :
      (rs : List Record) (w : Writer)
      → (flush_block z sort_slice (consume z sort_slice w rs)).file
        ≡ w.file ++ blocks z (map sort_slice (chunk_from w.buf rs))
  unfolding consume tally
  consume-file [] w = flush_block-file w
  consume-file (r ∷ rs) w = elim (Bool-cases (leb block_recs (length (w.buf ++ (r ∷ []))))) [
    | inl full ↦ rw (add_full w r full, consume-file rs, chunk_full w.buf rs r full, append_assoc)
    | inr room ↦ rw (add_room w r room, consume-file rs (tally w r), chunk_room w.buf rs r room)
  ]

  -- What the file holds after `Close`: the new header, what stood behind the old one, and the blocks
  -- of the records added.
  pub close-blocks :
      (w : Writer) (head old : Bytes) (rs : List Record)
      → length head ≡ 128
      → w.file ≡ head ++ old
      → close z sort_slice (consume z sort_slice w rs)
        ≡ header (header_of (flush_block z sort_slice (consume z sort_slice w rs)))
          ++ (old ++ blocks z (map sort_slice (chunk_from w.buf rs)))
  unfolding close
  close-blocks w head old rs eh e =
      ap (λ t. header (header_of (flush_block z sort_slice (consume z sort_slice w rs))) ++ t)
        (ap (drop 128) (consume-file rs w ∙ ap (λ t. t ++ rest) e ∙ append_assoc head old rest)
          ∙ ap (λ n. drop n (head ++ (old ++ rest))) (sym eh)
          ∙ drop_of_append head (old ++ rest))
    where
      rest : Bytes
      rest = blocks z (map sort_slice (chunk_from w.buf rs))
