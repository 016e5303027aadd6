-- ===== src/Store/Targets/Delivered.antt =====
-- internal/store/targets.go: what `StreamTargets` delivers, and its resume cursor.
use r_dns_crawler.Base.{
  ℕ, zero, suc, ◌+◌, ◌-◌, ◌%◌, ◌^◌, ◌<◌, ◌≡◌, refl, sym, ap, ◌∙◌, true, false, not, ◌&&◌, List, [],
  ◌∷◌, ◌++◌, ltb, leb, ◌==◌, if◌then◌else◌, arith, length, take, drop, take_nil, drop_nil,
  Bool-cases, inl, inr, ltb→lt, ltb→le,
}
use r_dns_crawler.Model.Mask.{has}
use r_dns_crawler.Store.Block.{Rec}
use r_dns_crawler.Store.Targets.{
  TargetEvent, deliver, checkpoint, due, delivered_one, count_records, stream_records,
}

-- The addresses sent on `out`.
abbrev pub delivered : List TargetEvent → List ℕ
delivered [] = []
delivered (deliver ip ∷ es) = ip ∷ delivered es
delivered (checkpoint n ∷ es) = delivered es

-- The addresses of the records whose status is in the mask, in file order.
abbrev pub targets : ℕ → List Rec → List ℕ
targets mask [] = []
targets mask (r ∷ rs) =
    let rest = targets mask rs in if has mask r.status then r.ip ∷ rest else rest

pub count_records_lem :
    (mask n : ℕ) (rs : List Rec)
    → n + length rs < 2 ^ 64
    → count_records mask n rs ≡ n + length (targets mask rs)
unfolding count_records
count_records_lem mask n [] h = omega arith
count_records_lem mask n (r ∷ rs) h = elim (Bool-cases (has mask r.status)) [
  | inl hit ↦
      rw (hit, count_records)
        (omega (arith, count_records_lem mask ((n + 1) % 2 ^ 64) rs (omega arith)))
  | inr miss ↦ rw (miss, count_records) (count_records_lem mask n rs (omega arith))
]

delivered-due : (every n : ℕ) (es : List TargetEvent) → delivered (due every n ++ es) ≡ delivered es
unfolding due
delivered-due every n es = elim (Bool-cases (n % every == 0)) [
  | inl e ↦ rw e refl
  | inr e ↦ rw e refl
]

abbrev pub quota : (limit room emitted : ℕ) → ℕ
quota limit room emitted =
    if limit == 0 then room else if leb room (limit - emitted) then room else limit - emitted

abbrev pub min : ℕ → ℕ → ℕ
min a b = if leb a b then a else b

quota_next :
    (limit more emitted : ℕ)
    → (not (limit == 0) && leb limit emitted) ≡ false
    → quota limit (suc more) emitted ≡ suc (quota limit more (emitted + 1))
quota_next limit more emitted h = ground arith

quota_full :
    (limit room emitted : ℕ)
    → (not (limit == 0) && leb limit emitted) ≡ true
    → quota limit room emitted ≡ 0
quota_full limit room emitted h = ground arith

quota-zero : (limit emitted : ℕ) → quota limit zero emitted ≡ 0
quota-zero limit emitted = ground arith

pub min_zero : (n : ℕ) → min 0 n ≡ 0
min_zero n = ground arith

min_nil : (n : ℕ) → min n 0 ≡ 0
min_nil n = ground arith

min-suc : (a b : ℕ) → min (suc a) (suc b) ≡ suc (min a b)
min-suc a b = ground arith

module _ (mask skip limit every : ℕ) where
  -- From a state of the callback on: the events and the counter of the rest of the stream.
  abbrev Streams : (room produced emitted : ℕ) → List Rec → Type 0
  Streams room produced emitted rs =
      let s = stream_records mask skip limit every room produced emitted rs in
      (delivered s.events
        ≡ take (quota limit room emitted) (drop (skip - produced) (targets mask rs)))
      × (s.produced
          ≡ produced
            + min (skip - produced) (length (targets mask rs))
            + length (delivered s.events))

  -- The record `r` is skipped, or sent.
  skip_lem :
      (room produced emitted : ℕ) (r : Rec) (rs : List Rec)
      → produced + 1 < 2 ^ 64
      → has mask r.status ≡ true
      → ltb produced skip ≡ true
      → Streams room (produced + 1) emitted rs
      → Streams room produced emitted (r ∷ rs)
  unfolding stream_records
  skip_lem room produced emitted r rs bound hit skipped (events, cursor) =
      let small : (produced + 1) % 2 ^ 64 ≡ produced + 1 = omega arith in
      let less : skip - produced ≡ suc (skip - (produced + 1)) =
        omega (arith, ltb→lt produced skip skipped) in
      let room_left = min-suc (skip - (produced + 1)) (length (targets mask rs)) in
      (
        rw (hit, stream_records, skipped, small, less) events,
        rw (hit, stream_records, skipped, small, less) (omega (arith, cursor, room_left)),
      )

  send_lem :
      (more produced emitted : ℕ) (r : Rec) (rs : List Rec)
      → produced + 1 < 2 ^ 64
      → emitted + 1 < 2 ^ 64
      → has mask r.status ≡ true
      → ltb produced skip ≡ false
      → (not (limit == 0) && leb limit emitted) ≡ false
      → Streams more (produced + 1) (emitted + 1) rs
      → Streams (suc more) produced emitted (r ∷ rs)
  unfolding stream_records delivered_one
  send_lem more produced emitted r rs bound bound2 hit past free (events, cursor) =
      let small : (produced + 1) % 2 ^ 64 ≡ produced + 1 = omega arith in
      let small2 : (emitted + 1) % 2 ^ 64 ≡ emitted + 1 = omega arith in
      let none_left : skip - produced ≡ 0 = omega (arith, ltb→le produced skip past) in
      let none_left2 : skip - (produced + 1) ≡ 0 = omega (arith, ltb→le produced skip past) in
      let next = quota_next limit more emitted free in
      let sent : delivered
            (stream_records mask skip limit every (suc more) produced emitted (r ∷ rs)).events
          ≡ r.ip
            ∷ delivered
                (stream_records mask skip limit every more (produced + 1) (emitted + 1) rs).events =
        rw (hit, stream_records, past, free, small, small2)
          (ap (λ l. r.ip ∷ l)
            (delivered-due every (produced + 1)
              (stream_records mask skip limit every more (produced + 1) (emitted + 1)
                rs).events)) in
      (
        rw sent (rw (none_left, hit, next) (ap (λ l. r.ip ∷ l) (rw none_left2 at events))),
        rw sent (
            rw (none_left, hit, stream_records, past, free, small, small2)
              (omega (
                arith,
                rw none_left2 at cursor,
                min_zero (length (targets mask rs)),
                min_zero (suc (length (targets mask rs))),
              ))),
      )

  pub stream_lem :
      (room produced emitted : ℕ) (rs : List Rec)
      → produced + length rs < 2 ^ 64
      → emitted + length rs < 2 ^ 64
      → Streams room produced emitted rs
  unfolding stream_records
  stream_lem room produced emitted [] hp he = (
    sym (
        ap (take (quota limit room emitted)) (drop_nil (skip - produced))
        ∙ take_nil (quota limit room emitted)),
    omega (arith, min_nil (skip - produced)),
  )
  stream_lem room produced emitted (r ∷ rs) hp he = elim (Bool-cases (has mask r.status)) [
    | inr miss ↦
        let (events, cursor) = stream_lem room produced emitted rs (omega arith) (omega arith) in
        (rw (miss, stream_records) events, rw (miss, stream_records) cursor)
    | inl hit ↦ elim (Bool-cases (ltb produced skip)) [
      | inl skipped ↦
          skip_lem room produced emitted r rs (omega arith) hit skipped
            (stream_lem room (produced + 1) emitted rs (omega arith) (omega arith))
      | inr past ↦ elim (Bool-cases (not (limit == 0) && leb limit emitted)) [
        | inl full ↦
            let none_left : skip - produced ≡ 0 = omega (arith, ltb→le produced skip past) in
            (
              rw (hit, stream_records, past, full, none_left, quota_full limit room emitted full)
                  refl,
              rw (hit, stream_records, past, full, none_left)
                  (omega (arith, min_zero (suc (length (targets mask rs))))),
            )
        | inr free ↦ elim room as (λ k. Streams k produced emitted (r ∷ rs)) [
          | zero ↦
              let none_left : skip - produced ≡ 0 = omega (arith, ltb→le produced skip past) in
              (
                rw (hit, stream_records, past, free, none_left, quota-zero limit emitted) refl,
                rw (hit, stream_records, past, free, none_left)
                    (omega (arith, min_zero (suc (length (targets mask rs))))),
              )
          | suc more ↦
              send_lem more produced emitted r rs (omega arith) (omega arith) hit past free
                (stream_lem more (produced + 1) (emitted + 1) rs (omega arith) (omega arith))
        ]
      ]
    ]
  ]
