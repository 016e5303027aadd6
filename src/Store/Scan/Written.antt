-- ===== src/Store/Scan/Written.antt =====
-- internal/store/reader.go: `Scan` on files that hold blocks of the writer, whole or cut off.
use r_dns_crawler.Base.{
  ℕ, zero, suc, ◌+◌, ◌^◌, ◌≤◌, ◌<◌, ◌≡◌, refl, sym, ap, ◌∙◌, List, [], ◌∷◌, ◌++◌, Bytes, length,
  length-append, take, ◌*◌, ◌-◌, drop, take_of_append, drop_of_append, append_assoc, append-nil,
  All, arith, ltb, lt→ltb, le→ltb, map, length-drop, length-take, Bool-cases, inl, inr, ltb→le,
}
use r_dns_crawler.Model.Record.{Record}
use r_dns_crawler.Store.Codec.{Codec}
use r_dns_crawler.Store.Words.{put_le, get_le, get_le-take}
use r_dns_crawler.Store.Block.{Rec, Outcome, finished, failed, truncated_tail, encode_block}
use r_dns_crawler.Store.Block.RoundTrip.{IsStorable, stored, decode_block-encode_block}
use r_dns_crawler.Store.Scan.{continue_scan, block_bytes, scan_payload, scan_blocks, scan}

module _ (z : Codec) where
  -- The records of a block can be stored, and its payload fits the widths of the block header.
  pub record IsBlock (rs : List Record) : Type 0 where
    pub storable : All IsStorable rs
    pub payload_fits : length (encode_block rs) < 2 ^ 63
    pub compressed_fits : length (z.compress (encode_block rs)) < 2 ^ 32

  abbrev pub blocks : List (List Record) → Bytes
  blocks [] = []
  blocks (g ∷ gs) = block_bytes z g ++ blocks gs

  abbrev pub stored_blocks : List (List Record) → List Rec
  stored_blocks [] = []
  stored_blocks (g ∷ gs) = map stored g ++ stored_blocks gs

  length-block_bytes :
      (g : List Record) → length (block_bytes z g) ≡ 12 + length (z.compress (encode_block g))
  unfolding block_bytes put_le
  length-block_bytes g = omega arith

  front_size :
      (g : List Record) (rest : Bytes)
      → length (z.compress (encode_block g)) < 2 ^ 32
      → get_le 4 (block_bytes z g ++ rest) ≡ length (z.compress (encode_block g))
  unfolding block_bytes put_le get_le
  front_size g rest h = omega arith

  scan_blocks_parts :
      (fuel : ℕ) (file c rest : Bytes)
      → 12 ≤ length file
      → get_le 4 file ≡ length c
      → drop 12 file ≡ c ++ rest
      → scan_blocks z (suc fuel) file
        ≡ continue_scan (scan_payload z (z.decompress c)) (scan_blocks z fuel rest)
  unfolding scan_blocks
  scan_blocks_parts fuel [] c rest h e1 e2 = absurd (omega arith)
  scan_blocks_parts fuel (b ∷ file) c rest h e1 e2 = rw (
    le→ltb _ _ h,
    e1,
    e2,
    le→ltb (length (c ++ rest)) (length c) (omega (arith, length-append c rest)),
    take_of_append c rest,
    drop_of_append c rest,
  )

  scan_blocks_step :
      (fuel : ℕ) (g : List Record) (rest : Bytes)
      → IsBlock g
      → scan_blocks z (suc fuel) (block_bytes z g ++ rest)
        ≡ continue_scan (map stored g, finished) (scan_blocks z fuel rest)
  unfolding scan_payload
  scan_blocks_step fuel g rest v =
      scan_blocks_parts fuel _ (z.compress (encode_block g)) rest long size body
      ∙ rw (
        z.decompress-compress (encode_block g),
        decode_block-encode_block g v.storable v.payload_fits,
      )
    where
      long : 12 ≤ length (block_bytes z g ++ rest)
      long = omega (arith, length-append (block_bytes z g) rest, length-block_bytes g)

      size : get_le 4 (block_bytes z g ++ rest) ≡ length (z.compress (encode_block g))
      size = front_size g rest v.compressed_fits

      body : drop 12 (block_bytes z g ++ rest) ≡ z.compress (encode_block g) ++ rest
      body = unfold block_bytes put_le in refl

  continue_finished :
      (rs : List Rec) (t : List Rec × Outcome) → continue_scan (rs, finished) t ≡ (rs ++ t.0, t.1)
  unfolding continue_scan
  continue_finished rs t = refl

  scan_blocks-blocks :
      (gs : List (List Record)) (fuel f : ℕ) (rest : Bytes)
      → All IsBlock gs
      → fuel ≡ length gs + f
      → scan_blocks z fuel (blocks gs ++ rest)
        ≡ (stored_blocks gs ++ (scan_blocks z f rest).0, (scan_blocks z f rest).1)
  scan_blocks-blocks [] fuel f rest h e = let same : fuel ≡ f = omega arith in rw same
  scan_blocks-blocks (g ∷ gs) zero f rest h e = absurd (omega arith)
  scan_blocks-blocks (g ∷ gs) (suc fuel) f rest (v, vs) e =
      rw
        (
          append_assoc,
          scan_blocks_step fuel g (blocks gs ++ rest) v,
          scan_blocks-blocks gs fuel f rest vs (omega arith),
          append_assoc,
        )
        (continue_finished (map stored g) _)

  le-blocks : (gs : List (List Record)) → 12 * length gs ≤ length (blocks gs)
  le-blocks [] = omega arith
  le-blocks (g ∷ gs) =
      omega (arith, length-append (block_bytes z g) (blocks gs), length-block_bytes g, le-blocks gs)

  -- `Scan` on a header, whole blocks and some bytes behind them: the records of the blocks, and then
  -- what the loop makes of those bytes.
  scan-blocks :
      (head : Bytes) (gs : List (List Record)) (rest : Bytes)
      → length head ≡ 128
      → All IsBlock gs
      → (f : ℕ) × (length rest < f)
        × (scan z (head ++ (blocks gs ++ rest))
            ≡ (stored_blocks gs ++ (scan_blocks z f rest).0, (scan_blocks z f rest).1))
  unfolding scan
  scan-blocks head gs rest eh h = (
    length (head ++ (blocks gs ++ rest)) - length gs,
    omega (arith, total, le-blocks gs),
    rw (le→ltb (length (head ++ (blocks gs ++ rest))) 128 (omega (arith, total)), behind)
        (scan_blocks-blocks gs _ _ rest h (omega (arith, total, le-blocks gs))),
  )
    where
      total : length (head ++ (blocks gs ++ rest)) ≡ 128 + (length (blocks gs) + length rest)
      total =
          omega (arith, length-append head (blocks gs ++ rest), length-append (blocks gs) rest, eh)

      behind : drop 128 (head ++ (blocks gs ++ rest)) ≡ blocks gs ++ rest
      behind =
          ap (λ n. drop n (head ++ (blocks gs ++ rest))) (sym eh)
          ∙ drop_of_append head (blocks gs ++ rest)

  scan_blocks-nil : (f : ℕ) → scan_blocks z f [] ≡ ([], finished)
  unfolding scan_blocks
  scan_blocks-nil zero = refl
  scan_blocks-nil (suc f) = refl

  scan_blocks_short :
      (f : ℕ) (file : Bytes)
      → 0 < f
      → 0 < length file
      → (12 ≤ length file → length (drop 12 file) < get_le 4 file)
      → scan_blocks z f file ≡ ([], failed truncated_tail)
  unfolding scan_blocks
  scan_blocks_short zero file hf h1 h2 = absurd (omega arith)
  scan_blocks_short (suc f) [] hf h1 h2 = absurd (omega arith)
  scan_blocks_short (suc f) (b ∷ file) hf h1 h2 = elim (Bool-cases (ltb (length (b ∷ file)) 12)) [
    | inl short ↦ rw short
    | inr long ↦ rw (long, lt→ltb _ _ (h2 (ltb→le _ _ long)))
  ]

  scan_blocks_cut :
      (g : List Record) (v : IsBlock g) (n f : ℕ)
      → 0 < n
      → n < length (block_bytes z g)
      → 0 < f
      → scan_blocks z f (take n (block_bytes z g)) ≡ ([], failed truncated_tail)
  scan_blocks_cut g v n f h1 h2 hf =
      scan_blocks_short f (take n (block_bytes z g)) hf (omega (arith, size)) (λ long. omega (
        arith,
        size,
        length-drop 12 (take n (block_bytes z g)),
        get_le-take 4 n (block_bytes z g) (omega (arith, size)),
        front g v,
        length-block_bytes g,
      ))
    where
      size : length (take n (block_bytes z g)) ≡ n
      size = length-take n (block_bytes z g) (omega arith)

      front :
          (g : List Record)
          → IsBlock g
          → get_le 4 (block_bytes z g) ≡ length (z.compress (encode_block g))
      front g v = rw (append-nil) at (front_size g [] v.compressed_fits)

  -- A file of a header and whole blocks is read to its end: every record of every block, in order.
  pub scan_whole :
      (head : Bytes) (gs : List (List Record))
      → length head ≡ 128
      → All IsBlock gs
      → scan z (head ++ blocks gs) ≡ (stored_blocks gs, finished)
  scan_whole head gs eh h =
      let (f, hf, e) = scan-blocks head gs [] eh h in
      let e' : scan z (head ++ blocks gs) ≡ (stored_blocks gs ++ [], finished) =
        rw (scan_blocks-nil f, append-nil (blocks gs)) at e in
      rw (append-nil (stored_blocks gs)) at e'

  -- A file that ends inside a block, its header included, is truncated: the records of the whole
  -- blocks in front of it are delivered, and then the error for a truncated tail is returned.
  pub scan_truncated :
      (head : Bytes) (gs : List (List Record)) (g : List Record) (n : ℕ)
      → length head ≡ 128
      → All IsBlock gs
      → IsBlock g
      → 0 < n
      → n < length (block_bytes z g)
      → scan z (head ++ (blocks gs ++ take n (block_bytes z g)))
        ≡ (stored_blocks gs, failed truncated_tail)
  scan_truncated head gs g n eh h v h1 h2 =
      let tail = take n (block_bytes z g) in
      let (f, hf, e) = scan-blocks head gs tail eh h in
      let cut : scan_blocks z f tail ≡ ([], failed truncated_tail) =
        scan_blocks_cut g v n f h1 h2 (omega (arith, hf)) in
      let e' : scan z (head ++ (blocks gs ++ tail))
          ≡ (stored_blocks gs ++ [], failed truncated_tail) =
        rw cut at e in
      rw (append-nil (stored_blocks gs)) at e'
