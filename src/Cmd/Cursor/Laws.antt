-- ===== src/Cmd/Cursor/Laws.antt =====
-- cmd/rdns-crawler/main.go: the count cursor is read back, and where a resumed re-crawl begins.
use r_dns_crawler.Base.{
  ℕ, ◌+◌, ◌-◌, ◌*◌, ◌^◌, ◌<◌, ◌≤◌, ◌≡◌, refl, sym, ap, ◌∙◌, true, false, List, [], ◌∷◌, ◌++◌, some,
  Bytes, length, trim_space, trim_left, trim_right, is_space, ◌==◌, arith, lt→ltb, take, drop,
  append-nil,
}
use r_dns_crawler.Base.Decimal.{decimal}
use r_dns_crawler.Base.Decimal.Laws.{value, Digits, decimal-Digits, length-decimal, value-decimal}
use r_dns_crawler.Store.Codec.{Codec}
use r_dns_crawler.Store.Block.{Rec, Outcome}
use r_dns_crawler.Store.Scan.{scan}
use r_dns_crawler.Store.Targets.{stream_targets}
use r_dns_crawler.Store.Targets.Delivered.{delivered, targets, quota}
use r_dns_crawler.Store.Targets.Resume.{stream_targets_lem}
use r_dns_crawler.Base.Trim.{trim_left_cons, trim_right_cons}
use r_dns_crawler.Ipgen.Address.{is_digit}
use r_dns_crawler.Cmd.Cursor.{
  write_count_cursor, read_count_cursor, before_slash, scan_end, scan_uint, recrawl_skip,
}

digit_not_space : (c : ℕ) → 48 ≤ c → c < 58 → is_space c ≡ false
unfolding is_space
digit_not_space c lo hi = ground arith

trim_right-append : (s t : Bytes) → Digits s → trim_right (s ++ t) ≡ s ++ trim_right t
trim_right-append [] t h = refl
trim_right-append (c ∷ s) t h =
    trim_right_cons c (s ++ t) (omega (arith, h.0.1)) (digit_not_space c h.0.0 h.0.1)
    ∙ ap (λ l. c ∷ l) (trim_right-append s t h.1)

trim_left-Digits : (s t : Bytes) → 0 < length s → Digits s → trim_left (s ++ t) ≡ s ++ t
trim_left-Digits [] t some_digit h = absurd (omega arith)
trim_left-Digits (c ∷ s) t some_digit h =
    trim_left_cons c (s ++ t) (omega (arith, h.0.1)) (digit_not_space c h.0.0 h.0.1)

before_slash-Digits : (s t : Bytes) → Digits s → before_slash (s ++ (47 ∷ t)) ≡ s
unfolding before_slash
before_slash-Digits [] t h = refl
before_slash-Digits (c ∷ s) t h =
    let other : (c == 47) ≡ false = ground (arith, h.0.0) in
    rw (other, before_slash) (ap (λ l. c ∷ l) (before_slash-Digits s t h.1))

scan_uint-Digits :
    (v n : ℕ) (s : Bytes) → Digits s → scan_uint v n s ≡ scan_end (value v s) (n + length s)
unfolding scan_uint
scan_uint-Digits v n [] h = ap (scan_end v) (omega arith)
scan_uint-Digits v n (c ∷ s) h =
    let digit : is_digit c ≡ true = ground (arith, h.0.0, h.0.1) in
    rw (digit, scan_uint)
      (scan_uint-Digits (v * 10 + (c - 48)) (n + 1) s h.1
        ∙ ap (scan_end (value (v * 10 + (c - 48)) s)) (omega arith))

-- For a uint64: `readCountCursor` gives the number back that `writeCountCursor` put first, whatever
-- total stands behind it.
pub read_count_cursor-write_count_cursor :
    (done total : ℕ)
    → done < 2 ^ 64
    → read_count_cursor (some (write_count_cursor done total)) ≡ some done
unfolding write_count_cursor read_count_cursor trim_space
read_count_cursor-write_count_cursor done total h =
    let digits = decimal-Digits done in
    let text = decimal total ++ (10 ∷ []) in
    let trimmed : trim_right (trim_left (decimal done ++ (47 ∷ text)))
        ≡ decimal done ++ (47 ∷ trim_right text) =
      ap trim_right (trim_left-Digits (decimal done) (47 ∷ text) (length-decimal done) digits)
      ∙ trim_right-append (decimal done) (47 ∷ text) digits
      ∙ ap (λ l. decimal done ++ l) (trim_right_cons 47 text (omega arith) slash) in
    let unspaced : trim_left (decimal done) ≡ decimal done =
      ap trim_left (sym (append-nil (decimal done)))
      ∙ trim_left-Digits (decimal done) [] (length-decimal done) digits
      ∙ append-nil (decimal done) in
    ap (λ t. scan_uint 0 0 (trim_left (before_slash t))) trimmed
    ∙ ap (λ t. scan_uint 0 0 (trim_left t))
        (before_slash-Digits (decimal done) (trim_right text) digits)
    ∙ ap (scan_uint 0 0) unspaced
    ∙ scan_uint-Digits 0 0 (decimal done) digits
    ∙ ap (λ v. scan_end v (0 + length (decimal done))) (value-decimal done h)
    ∙ ended (length (decimal done)) (length-decimal done)
  where
    slash : is_space 47 ≡ false
    slash = unfold is_space in refl

    ended : (k : ℕ) → 0 < k → scan_end done (0 + k) ≡ some done
    ended k some_digit =
        let more : (0 + k == 0) ≡ false = ground arith in
        unfold scan_end in rw (more, lt→ltb done (2 ^ 64) h) refl

-- For a cursor file that `runRecrawl` wrote for `done` targets, a uint64, and an old shard with fewer
-- than 2 ^ 64 records, when `room` sends go through before the next cancellation: a run with
-- `--resume` delivers the targets from one checkpoint interval before the cursor on, or from the
-- first if the cursor is not past one interval; so it repeats at most an interval and leaves out no
-- target behind that point, up to the run's limit.
pub recrawl_resume :
    (z : Codec) (old : Bytes) (mask limit total room done : ℕ) (rs : List Rec) (e : Outcome)
    → done < 2 ^ 64
    → scan z old ≡ (rs, e)
    → length rs < 2 ^ 64
    → let skip = recrawl_skip true (read_count_cursor (some (write_count_cursor done total))) in
      delivered (stream_targets z old mask skip limit 0 room).events
      ≡ take (quota limit room 0) (drop (done - 131072) (targets mask rs))
unfolding recrawl_skip
recrawl_resume z old mask limit total room done rs e h scanned few =
    let back : recrawl_skip true (some done) ≡ done - 131072 = ground arith in
    (stream_targets_lem z old mask _ limit 0 room rs e scanned few).0
    ∙ ap (λ c. take (quota limit room 0) (drop (recrawl_skip true c) (targets mask rs)))
        (read_count_cursor-write_count_cursor done total h)
    ∙ ap (λ k. take (quota limit room 0) (drop k (targets mask rs))) back
