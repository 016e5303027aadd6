-- ===== src/Store/Targets/Resume.antt =====
-- internal/store/targets.go: streaming by the cursor, and the count of the targets.
use r_dns_crawler.Base.{
  ℕ, ◌+◌, ◌-◌, ◌^◌, ◌≤◌, ◌<◌, ◌≡◌, sym, ap, ◌∙◌, List, ◌++◌, Bytes, arith, length, take, drop,
  take_add, drop_add, take_all, take-length-take,
}
use r_dns_crawler.Base.Results.{ok}
use r_dns_crawler.Store.Codec.{Codec}
use r_dns_crawler.Store.Block.{Rec, Outcome, finished}
use r_dns_crawler.Store.Scan.{scan}
use r_dns_crawler.Store.Targets.{cadence, counted, count_targets, stream_scanned, stream_targets}
use r_dns_crawler.Store.Targets.Delivered.{
  delivered, targets, quota, min, stream_lem, count_records_lem,
}

-- For a file that holds fewer than 2 ^ 64 records before its end or its first error: when `room`
-- sends go through before the context is cancelled, `StreamTargets` delivers, in file order, the
-- addresses of the records with a status in the mask, less the first `skip`: the first `room` of
-- them, and not more than `limit` if that is not 0. The final cursor is the number of targets that
-- were skipped or delivered.
pub stream_targets_lem :
    (z : Codec) (file : Bytes) (mask skip limit every room : ℕ) (rs : List Rec) (e : Outcome)
    → scan z file ≡ (rs, e)
    → length rs < 2 ^ 64
    → let s = stream_targets z file mask skip limit every room in
      (delivered s.events ≡ take (quota limit room 0) (drop skip (targets mask rs)))
      × (s.cursor ≡ min skip (length (targets mask rs)) + length (delivered s.events))
unfolding stream_targets stream_scanned
stream_targets_lem z file mask skip limit every room rs e h small =
    let (events, cursor) =
      stream_lem mask skip limit (cadence every) room 0 0 rs (omega arith) (omega arith) in
    let whole : skip - 0 ≡ skip = omega arith in
    rw h (rw whole at events, omega (arith, rw whole at cursor))

-- For a file that holds fewer than 2 ^ 64 records before its end or its first error, and at least
-- `skip` targets: a run that was cancelled or limited, followed by a run without a limit that skips
-- as many targets as the first run's final cursor says, delivers what one run without a limit
-- delivers when as many sends go through: no target is repeated and none is left out.
pub stream_targets_resume :
    (z : Codec) (file : Bytes) (mask skip limit every room more : ℕ) (rs : List Rec) (e : Outcome)
    → scan z file ≡ (rs, e)
    → length rs < 2 ^ 64
    → skip ≤ length (targets mask rs)
    → let first = stream_targets z file mask skip limit every room in
      let second = stream_targets z file mask first.cursor 0 every more in
      delivered first.events ++ delivered second.events
      ≡ delivered
          (stream_targets z file mask skip 0 every (length (delivered first.events) + more)).events
stream_targets_resume z file mask skip limit every room more rs e h small enough =
    let l : List ℕ = drop skip (targets mask rs) in
    let first = stream_targets z file mask skip limit every room in
    let (sent, cursor) = stream_targets_lem z file mask skip limit every room rs e h small in
    let (rest, cursor2) = stream_targets_lem z file mask first.cursor 0 every more rs e h small in
    let (all, cursor3) =
      stream_targets_lem z file mask skip 0 every (length (delivered first.events) + more) rs e h
        small in
    let n = length (delivered first.events) in
    let second = stream_targets z file mask first.cursor 0 every more in
    let at_skip : min skip (length (targets mask rs)) ≡ skip = ground arith in
    let resumed : first.cursor ≡ skip + n = omega (arith, cursor, at_skip) in
    let own : take n l ≡ delivered first.events =
      ap (λ t. take (length t) l) sent ∙ take-length-take (quota limit room 0) l ∙ sym sent in
    let next : delivered second.events ≡ take more (drop n l) =
      rest
      ∙ ap (λ c. take more (drop c (targets mask rs))) resumed
      ∙ sym (ap (take more) (drop_add skip n (targets mask rs))) in
    ap (λ t. t ++ delivered second.events) (sym own)
    ∙ ap (λ t. take n l ++ t) next
    ∙ sym (take_add n more l)
    ∙ sym all

-- For a file that scans to its end and holds fewer than 2 ^ 64 records: `CountTargets` is the number
-- of addresses that `StreamTargets` delivers without skip, limit or cancellation.
pub count_targets-stream_targets :
    (z : Codec) (file : Bytes) (mask every room : ℕ) (rs : List Rec)
    → scan z file ≡ (rs, finished)
    → length rs < 2 ^ 64
    → length (targets mask rs) ≤ room
    → count_targets z file mask
      ≡ ok (length (delivered (stream_targets z file mask 0 0 every room).events))
unfolding count_targets counted
count_targets-stream_targets z file mask every room rs h small enough =
    let (sent, cursor) = stream_targets_lem z file mask 0 0 every room rs finished h small in
    rw (h, sent, take_all room (targets mask rs) enough)
      (ap ok (omega (arith, count_records_lem mask 0 rs (omega arith))))
