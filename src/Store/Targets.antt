-- ===== src/Store/Targets.antt =====
-- internal/store/targets.go: the targets of a re-crawl. The consumer and the context are `room`, the
-- number of sends that go through before the context is cancelled.
pub mod Delivered
pub mod Resume
use r_dns_crawler.Base.{
  ℕ, zero, suc, ◌+◌, ◌%◌, ◌^◌, Bool, true, false, not, ◌&&◌, List, [], ◌∷◌, ◌++◌, Option, none,
  some, Bytes, ltb, leb, ◌==◌, if◌then◌else◌,
}
use r_dns_crawler.Base.Results.{Result, ok, err}
use r_dns_crawler.Model.Mask.{has}
use r_dns_crawler.Store.Codec.{Codec}
use r_dns_crawler.Store.Block.{Rec, Outcome, finished}
use r_dns_crawler.Store.Scan.{scan}

-- The callback of `CountTargets` on all records.
unfoldable pub count_records : ℕ → ℕ → List Rec → ℕ
count_records mask n [] = n
count_records mask n (r ∷ rs) = elim (has mask r.status) [
  | true ↦ count_records mask ((n + 1) % 2 ^ 64) rs
  | false ↦ count_records mask n rs
]

unfoldable pub counted : ℕ → List Rec × Outcome → Result Outcome ℕ
counted mask (rs, finished) = ok (count_records mask 0 rs)
counted mask (rs, e) = err e

-- `CountTargets`.
unfoldable pub count_targets : Codec → Bytes → ℕ → Result Outcome ℕ
count_targets z file mask = counted mask (scan z file)

-- An address on `out`, or an attempt to send on `cursor`, whose buffer may be full.
pub data TargetEvent : Type 0 where
  deliver : ℕ → TargetEvent
  checkpoint : ℕ → TargetEvent

-- What the callback of `StreamTargets` did: `stopped` is `errStop`.
pub record Streamed : Type 0 where
  pub events : List TargetEvent
  pub produced : ℕ
  pub stopped : Bool

abbrev pub default_target_checkpoint : ℕ
default_target_checkpoint = 131072

unfoldable pub cadence : ℕ → ℕ
cadence checkpoint_every =
    if checkpoint_every == 0 then default_target_checkpoint else checkpoint_every

unfoldable pub due : ℕ → ℕ → List TargetEvent
due every produced = if produced % every == 0 then checkpoint produced ∷ [] else []

unfoldable pub delivered_one : ℕ → List TargetEvent → Streamed → Streamed
delivered_one ip cursors s = record s { events = deliver ip ∷ (cursors ++ s.events) }

module _ (mask skip limit every : ℕ) where
  unfoldable pub stream_records : (room produced emitted : ℕ) → List Rec → Streamed
  stream_records room produced emitted [] = record {
    events = [];
    produced = produced;
    stopped = false;
  }
  stream_records room produced emitted (r ∷ rs) = elim (has mask r.status) [
    | false ↦ stream_records room produced emitted rs
    | true ↦ elim (ltb produced skip) [
      | true ↦ stream_records room ((produced + 1) % 2 ^ 64) emitted rs
      | false ↦ elim (not (limit == 0) && leb limit emitted) [
        | true ↦ record { events = []; produced = produced; stopped = true }
        | false ↦ elim room [
          | zero ↦ record { events = []; produced = produced; stopped = true }
          | suc more ↦
              let next = (produced + 1) % 2 ^ 64 in
              delivered_one r.ip (due every next)
                (stream_records more next ((emitted + 1) % 2 ^ 64) rs)
        ]
      ]
    ]
  ]

-- The final cursor value is always delivered; a stop is no error.
pub record StreamResult : Type 0 where
  pub events : List TargetEvent
  pub cursor : ℕ
  pub error : Option Outcome

unfoldable pub stream_error : Bool → Outcome → Option Outcome
stream_error true e = none
stream_error false finished = none
stream_error false e = some e

unfoldable pub stream_scanned : (mask skip limit every room : ℕ) → List Rec × Outcome → StreamResult
unfolding stream_error
stream_scanned mask skip limit every room (rs, e) =
    let s = stream_records mask skip limit every room 0 0 rs in
    record { events = s.events; cursor = s.produced; error = stream_error s.stopped e }

-- `StreamTargets`.
unfoldable pub stream_targets :
    Codec → Bytes → (mask skip limit checkpoint_every room : ℕ) → StreamResult
unfolding stream_scanned
stream_targets z file mask skip limit checkpoint_every room =
    stream_scanned mask skip limit (cadence checkpoint_every) room (scan z file)
