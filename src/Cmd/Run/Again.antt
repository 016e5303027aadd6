-- ===== src/Cmd/Run/Again.antt =====
-- cmd/rdns-crawler/main.go, `runRecrawl`: from the previous shard to the file that the run leaves.
use r_dns_crawler.Base.{
  ℕ, inl, inr, ◌<◌, ◌^◌, ◌≡◌, refl, sym, ap, subst, ◌∙◌, Bool, false, List, [], ◌∷◌, ◌++◌, Option,
  some, none, Bytes, length, arith, codes, take, drop,
}
use r_dns_crawler.Base.Results.{Result, ok, err, ◌>>=◌, ok_injective, Result-cases}
use r_dns_crawler.Model.Mask.{ParseError, parse_statuses}
use r_dns_crawler.Store.Codec.{Codec}
use r_dns_crawler.Store.Block.{Rec, Outcome, finished, failed, panicked, stuck}
use r_dns_crawler.Store.Header.{Header, read_header}
use r_dns_crawler.Store.Scan.{scan}
use r_dns_crawler.Store.Targets.{count_targets, stream_targets, counted, count_records}
use r_dns_crawler.Store.Targets.Delivered.{delivered, targets, quota, count_records_lem}
use r_dns_crawler.Store.Targets.Resume.{stream_targets_lem}
use r_dns_crawler.Cmd.Cursor.{recrawl_skip, read_count_cursor}
use r_dns_crawler.Cmd.Sink.{Sink, new_sink, out_path}
use r_dns_crawler.Cmd.Run.{
  Disk, CommonFlags, CmdError, wrap, crawler_config, Recrawl, given, required, open_resolver,
  open_sink, start_recrawl, reread, run_recrawl, bad_plan, bad_statuses, bad_previous,
}

wrap-eq-ok : {E A : Type 0} (f : E → CmdError) (m : Result E A) {a : A} → wrap f m ≡ ok a → m ≡ ok a
unfolding wrap
wrap-eq-ok f (ok x) h = ap ok (ok_injective h)
wrap-eq-ok f (err e) h = absurd (cc)

given-eq-ok : (o : Option Bytes) {file : Bytes} → given o ≡ ok file → o ≡ some file
unfolding given
given-eq-ok none h = absurd (cc)
given-eq-ok (some x) h = ap some (ok_injective h)

required-eq-ok : (s : Bytes) {name : Bytes} → required s ≡ ok name → s ≡ name
unfolding required
required-eq-ok [] h = absurd (cc)
required-eq-ok (c ∷ s) h = ok_injective h

-- The steps of a re-crawl that starts, from the previous shard on.
pub record Started (z : Codec) (c : CommonFlags) (d : Disk) (from path old : Bytes)
    (header : Header) (mask expected now limit : ℕ) (resume : Bool) (room : ℕ) (job : Recrawl)
    : Type 0 where
  pub its_sink :
      new_sink c.format (d.files path) header.shards header.shard_id now resume
      ≡ ok job.session.sink
  pub its_config : job.session.config ≡ crawler_config c
  pub its_count : job.expected ≡ expected
  pub its_skip :
      job.skip ≡ recrawl_skip resume (read_count_cursor (d.files (path ++ codes ".cursor")))
  pub its_stream :
      job.stream
      ≡ stream_targets z (reread d from path old resume job.session.sink) mask job.skip limit 0 room

pub start_recrawl-Started :
    (z : Codec) (c : CommonFlags) (d : Disk) (from path old : Bytes) (header : Header)
    (mask expected now limit : ℕ) (resume : Bool) (room : ℕ) (job : Recrawl)
    → start_recrawl z c d from path old header mask expected now limit resume room ≡ ok job
    → Started z c d from path old header mask expected now limit resume room job
unfolding start_recrawl open_sink wrap
start_recrawl-Started z c d from path old header mask expected now limit resume room job h =
    elim (Result-cases (open_resolver c d.files)) [
      | inr (e, bad) ↦ absurd (cc (rw (bad, ◌>>=◌) at h))
      | inl (res, opened) ↦
          elim (Result-cases
            (new_sink c.format (d.files path) header.shards header.shard_id now resume)) [
              | inr (e, bad) ↦ absurd (cc (rw (opened, ◌>>=◌, bad, wrap) at h))
              | inl (wr, created) ↦
                  let same = ok_injective (rw (opened, ◌>>=◌, created, wrap) at h) in
                  subst (Started z c d from path old header mask expected now limit resume room)
                    same
                    (record {
                      its_sink = created;
                      its_config = refl;
                      its_count = refl;
                      its_skip = refl;
                      its_stream = refl;
                    })
            ]
    ]

-- The first half: the previous shard was read to its end.
pub record Planned (z : Codec) (c : CommonFlags) (d : Disk) (stamp from statuses : Bytes)
    (now limit : ℕ) (resume : Bool) (room : ℕ) (job : Recrawl) : Type 0 where
  pub old : Bytes
  pub old_header : Header
  pub mask : ℕ
  pub expected : ℕ
  pub its_mask : parse_statuses statuses ≡ ok mask
  pub its_file : d.files from ≡ some old
  pub its_header : read_header old ≡ ok old_header
  pub its_plan : count_targets z old mask ≡ ok expected
  pub its_start :
      Started z c d from
        (out_path c.out c.format (codes "recrawl") stamp)
        old
        old_header
        mask
        expected
        now
        limit
        resume
        room
        job

pub run_recrawl-Planned :
    (z : Codec) (c : CommonFlags) (d : Disk) (stamp from statuses : Bytes) (now limit : ℕ)
    (resume : Bool) (room : ℕ) (job : Recrawl)
    → run_recrawl z c d stamp from statuses now limit resume room ≡ ok job
    → Planned z c d stamp from statuses now limit resume room job
unfolding run_recrawl
run_recrawl-Planned z c d stamp from statuses now limit resume room job h =
    elim (Result-cases (required from)) [
      | inr (e, bad) ↦ absurd (cc (rw (bad, ◌>>=◌) at h))
      | inl (name, named) ↦ elim (Result-cases (wrap bad_statuses (parse_statuses statuses))) [
        | inr (e, bad) ↦ absurd (cc (rw (named, ◌>>=◌, bad) at h))
        | inl (mask, masked) ↦ elim (Result-cases (given (d.files name))) [
          | inr (e, bad) ↦ absurd (cc (rw (named, ◌>>=◌, masked, bad) at h))
          | inl (old, found) ↦ elim (Result-cases (wrap bad_previous (read_header old))) [
            | inr (e, bad) ↦ absurd (cc (rw (named, ◌>>=◌, masked, found, bad) at h))
            | inl (header, read) ↦ elim (Result-cases (wrap bad_plan (count_targets z old mask))) [
              | inr (e, bad) ↦ absurd (cc (rw (named, ◌>>=◌, masked, found, read, bad) at h))
              | inl (expected, counted) ↦
                  let path = out_path c.out c.format (codes "recrawl") stamp in
                  record {
                    old = old;
                    old_header = header;
                    mask = mask;
                    expected = expected;
                    its_mask = wrap-eq-ok bad_statuses (parse_statuses statuses) masked;
                    its_file =
                        subst (λ s. d.files s ≡ some old) (sym (required-eq-ok from named))
                          (given-eq-ok (d.files name) found);
                    its_header = wrap-eq-ok bad_previous (read_header old) read;
                    its_plan = wrap-eq-ok bad_plan (count_targets z old mask) counted;
                    its_start =
                        subst
                          (λ s.
                            Started z c d s path old header mask expected now limit resume room job)
                          (sym (required-eq-ok from named))
                          (start_recrawl-Started z c d name _ old header mask expected now limit
                            resume room job (rw (named, ◌>>=◌, masked, found, read, counted) at h));
                  }
            ]
          ]
        ]
      ]
    ]

counted_whole :
    (mask : ℕ) (rs : List Rec) (e : Outcome) {n : ℕ}
    → counted mask (rs, e) ≡ ok n
    → (e ≡ finished) × (n ≡ count_records mask 0 rs)
unfolding counted
counted_whole mask rs finished h = (refl, sym (ok_injective h))
counted_whole mask rs (failed scan_error) h = absurd (cc)
counted_whole mask rs panicked h = absurd (cc)
counted_whole mask rs stuck h = absurd (cc)

mask_injective : {a b : ℕ} → ◌≡◌ {A = Result ParseError ℕ} (ok a) (ok b) → a ≡ b
mask_injective h = ok_injective h

some_injective : {a b : Bytes} → ◌≡◌ {A = Option Bytes} (some a) (some b) → a ≡ b
some_injective h = cc

-- The output and its checkpoints are other files than the previous shard.
reread_apart :
    (d : Disk) (from path old : Bytes) (resume : Bool) (wr : Sink)
    → d.same_file from path ≡ false
    → d.same_file from (path ++ codes ".cursor") ≡ false
    → reread d from path old resume wr ≡ old
unfolding reread
reread_apart d from path old resume wr other apart = rw (other, apart) refl

module _ (z : Codec) (c : CommonFlags) (d : Disk) (stamp from statuses old : Bytes) (now limit : ℕ)
    (resume : Bool) (room : ℕ) (job : Recrawl) (mask : ℕ) (rs : List Rec) (e : Outcome) where
  -- A re-crawl starts, with or without `--resume` and a limit, neither its output nor the file of its
  -- checkpoints is the previous shard itself, and the shard has fewer than 2 ^ 64 records: then the shard was read to its end without an error, the number that is announced
  -- is that of its targets, and the addresses handed to the workers are the targets behind the skipped
  -- ones, up to the limit and the cancellation.
  pub run_recrawl_whole :
      run_recrawl z c d stamp from statuses now limit resume room ≡ ok job
      → d.same_file from (out_path c.out c.format (codes "recrawl") stamp) ≡ false
      → d.same_file from (out_path c.out c.format (codes "recrawl") stamp ++ codes ".cursor")
        ≡ false
      → d.files from ≡ some old
      → parse_statuses statuses ≡ ok mask
      → scan z old ≡ (rs, e)
      → length rs < 2 ^ 64
      → (e ≡ finished)
        × (job.expected ≡ length (targets mask rs))
        × (delivered job.stream.events
            ≡ take (quota limit room 0) (drop job.skip (targets mask rs)))
  unfolding count_targets
  run_recrawl_whole started other apart read parsed scanned few =
      let p = run_recrawl-Planned z c d stamp from statuses now limit resume room job started in
      let s = p.its_start in
      let same_old : p.old ≡ old = some_injective (sym p.its_file ∙ read) in
      let same_mask : p.mask ≡ mask = mask_injective (sym p.its_mask ∙ parsed) in
      let (whole, count) =
        counted_whole mask rs e (rw (same_old, same_mask, scanned) at p.its_plan) in
      (
        whole,
        s.its_count ∙ count ∙ count_records_lem mask 0 rs (omega arith) ∙ omega arith,
        rw s.its_stream (
            rw
              (reread_apart d from _ p.old resume job.session.sink other apart, same_old, same_mask)
              (stream_targets_lem z old mask job.skip limit 0 room rs e scanned few).0),
      )
