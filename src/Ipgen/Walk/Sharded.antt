-- ===== src/Ipgen/Walk/Sharded.antt =====
-- internal/ipgen/ipgen.go: what the two walks emit, and where a walk resumes.
use r_dns_crawler.Base.{
  ℕ, zero, suc, ◌+◌, ◌-◌, ◌≤◌, ◌<◌, ◌≡◌, refl, ◌∙◌, Bool, true, false, not, ◌&&◌, List, [], ◌∷◌,
  Option, some, none, leb, ◌==◌, arith, if◌then◌else◌, Bool-cases, inl, inr, take, take_nil, drop,
  get_elem?,
}
use r_dns_crawler.Ipgen.Reserved.{ReservedRange, reserved_ipv4_ranges, is_reserved, block_end}
use r_dns_crawler.Ipgen.Reserved.Laws.{
  picks, picks-eq, picks_skip, block_end-some, block_end_reserved,
}
use r_dns_crawler.Ipgen.Shard.{ShardConfig, in_shard_sample}
use r_dns_crawler.Ipgen.Walk.{Event, emit, checkpoint, stuck, jump, sharded}

pub some_injective : {A : Type 0} {a b : A} → some a ≡ some b → a ≡ b
some_injective h = cc

pub leb→lt : (a b : ℕ) → leb a b ≡ false → b < a
leb→lt a b h = ground arith

pub leb→le : (a b : ℕ) → leb a b ≡ true → a ≤ b
leb→le a b h = ground arith

-- The addresses sent on `out`, and `none` for a walk that ran out of fuel.
abbrev cons_some : ℕ → Option (List ℕ) → Option (List ℕ)
cons_some v none = none
cons_some v (some vs) = some (v ∷ vs)

abbrev pub emits : List Event → Option (List ℕ)
emits [] = some []
emits (emit v ∷ es) = cons_some v (emits es)
emits (checkpoint v ∷ es) = emits es
emits (stuck ∷ es) = none

abbrev pub walk_end : ℕ
walk_end = 4294967296

abbrev Ends : List ReservedRange → Type 0
Ends [] = Unit
Ends (r ∷ rs) = (r.end < walk_end) × Ends rs

block_end-lt :
    (rs : List ReservedRange) (v e : ℕ) → Ends rs → block_end rs v ≡ some e → e < walk_end
unfolding block_end
block_end-lt [] v e ends h = absurd (ground arith)
block_end-lt (r ∷ rs) v e ends h = ground (arith, block_end-lt rs v e ends.1)

reserved_Ends : Ends reserved_ipv4_ranges
reserved_Ends = omega arith

jump-some : (v e : ℕ) → block_end reserved_ipv4_ranges v ≡ some e → jump v ≡ e + 1
unfolding jump
jump-some v e h = rw (h, jump) refl

-- A jump moves on, stays in the space and leaves out nothing that is not reserved.
pub jump_lem :
    (p : ℕ → Bool) (v : ℕ)
    → ((i : ℕ) → is_reserved i ≡ true → p i ≡ false)
    → is_reserved v ≡ true
    → (v < jump v)
      × (jump v ≤ walk_end)
      × (picks p v (walk_end - v) ≡ picks p (jump v) (walk_end - jump v))
unfolding is_reserved
jump_lem p v shut h =
    let (e, found) = block_end_reserved reserved_ipv4_ranges v h in
    let (le, all) = block_end-some reserved_ipv4_ranges v e found in
    let lt = block_end-lt reserved_ipv4_ranges v e reserved_Ends found in
    let skipped =
      picks_skip p v (walk_end - v) (e + 1 - v) (omega (arith, lt))
        (λ i lo hi. shut i (all i lo (omega (arith, le)))) in
    let target : jump v ≡ e + 1 = jump-some v e found in
    rw target (
      omega (arith, le),
      omega (arith, lt),
      skipped ∙ picks-eq p (omega (arith, le)) (omega (arith, le, lt)),
    )

picks_step :
    (p : ℕ → Bool) (v : ℕ)
    → v < walk_end
    → picks p v (walk_end - v) ≡ (
        if p v
        then v ∷ picks p (v + 1) (walk_end - (v + 1))
        else picks p (v + 1) (walk_end - (v + 1)))
picks_step p v h =
    let d : walk_end - v ≡ suc (walk_end - (v + 1)) = omega arith in
    picks-eq p refl d ∙ unfold picks in refl

pub picks_hit :
    (p : ℕ → Bool) (v : ℕ)
    → v < walk_end
    → p v ≡ true
    → picks p v (walk_end - v) ≡ v ∷ picks p (v + 1) (walk_end - (v + 1))
picks_hit p v h here = picks_step p v h ∙ rw here refl

picks_miss :
    (p : ℕ → Bool) (v : ℕ)
    → v < walk_end
    → p v ≡ false
    → picks p v (walk_end - v) ≡ picks p (v + 1) (walk_end - (v + 1))
picks_miss p v h away = picks_step p v h ∙ rw away refl

pub picks_end : (p : ℕ → Bool) (v : ℕ) → walk_end ≤ v → picks p v (walk_end - v) ≡ []
picks_end p v h =
    let d : walk_end - v ≡ zero = omega arith in picks-eq p {v = v} refl d ∙ unfold picks in refl

-- Behind the address at position `k` the rest of the picks starts.
pub drop-picks :
    (p : ℕ → Bool) (v n k w : ℕ)
    → get_elem? (picks p v n) k ≡ some w
    → drop (suc k) (picks p v n) ≡ picks p (w + 1) (v + n - (w + 1))
unfolding picks
drop-picks p v zero k w h = absurd (ground arith)
drop-picks p v (suc n) zero w h = elim (Bool-cases (p v)) [
  | inl here ↦
      let e : v ≡ w = some_injective (rw here at h) in
      rw here (picks-eq p (omega (arith, e)) (omega (arith, e)))
  | inr away ↦
      rw away
        (drop-picks p (v + 1) n zero w (rw away at h) ∙ picks-eq p {v = w + 1} refl (omega arith))
]
drop-picks p v (suc n) (suc k) w h = elim (Bool-cases (p v)) [
  | inl here ↦
      rw here
        (drop-picks p (v + 1) n k w (rw here at h) ∙ picks-eq p {v = w + 1} refl (omega arith))
  | inr away ↦
      rw away (
        drop-picks p (v + 1) n (suc k) w (rw away at h) ∙ picks-eq p {v = w + 1} refl (omega arith))
]

abbrev pub min : ℕ → ℕ → ℕ
min a b = if leb a b then a else b

module _ (cfg : ShardConfig) where
  -- The addresses this node should crawl.
  abbrev pub wanted : ℕ → Bool
  wanted v = if is_reserved v then false else in_shard_sample v cfg

  -- So many addresses may still be sent.
  abbrev pub quota : (room emitted : ℕ) → ℕ
  quota room emitted = if cfg.limit == 0 then room else min room (cfg.limit - emitted)

  wanted_reserved : (i : ℕ) → is_reserved i ≡ true → wanted i ≡ false
  wanted_reserved i h = rw h refl

  quota_next :
      (more emitted : ℕ)
      → (not (cfg.limit == 0) && leb cfg.limit emitted) ≡ false
      → quota (suc more) emitted ≡ suc (quota more (emitted + 1))
  quota_next more emitted h = ground arith

  quota_full :
      (room emitted : ℕ)
      → (not (cfg.limit == 0) && leb cfg.limit emitted) ≡ true
      → quota room emitted ≡ 0
  quota_full room emitted h = ground arith

  quota-zero : (emitted : ℕ) → quota zero emitted ≡ 0
  quota-zero emitted = ground arith

  -- The turn that sends `v`, given what the walk does behind it.
  sent_lem :
      (fuel room emitted since v : ℕ)
      → (leb v 0xffffffff ≡ true)
        × ((not (cfg.limit == 0) && leb cfg.limit emitted) ≡ false)
        × (is_reserved v ≡ false)
        × (in_shard_sample v cfg ≡ true)
        × (picks wanted v (walk_end - v) ≡ v ∷ picks wanted (v + 1) (walk_end - (v + 1)))
      → ((more next : ℕ)
          → emits (sharded cfg fuel more (emitted + 1) next (v + 1))
            ≡ some (take (quota more (emitted + 1)) (picks wanted (v + 1) (walk_end - (v + 1)))))
      → emits (sharded cfg (suc fuel) room emitted since v)
        ≡ some (take (quota room emitted) (picks wanted v (walk_end - v)))
  unfolding sharded
  sent_lem fuel zero emitted since v (inside, free, routable, mine, hit) ih =
      rw (inside, sharded, free, routable, mine, quota-zero emitted) refl
  sent_lem fuel (suc more) emitted since v (inside, free, routable, mine, hit) ih =
      elim (Bool-cases (leb 131072 (since + 1))) [
        | inl due ↦
            rw
              (
                inside,
                sharded,
                free,
                routable,
                mine,
                due,
                hit,
                quota_next more emitted free,
                ih more 0,
              )
              refl
        | inr early ↦
            rw
              (
                inside,
                sharded,
                free,
                routable,
                mine,
                early,
                hit,
                quota_next more emitted free,
                ih more (since + 1),
              )
              refl
      ]

  pub sharded_lem :
      (fuel room emitted since v : ℕ)
      → v ≤ walk_end
      → walk_end < fuel + v
      → emits (sharded cfg fuel room emitted since v)
        ≡ some (take (quota room emitted) (picks wanted v (walk_end - v)))
  unfolding sharded
  sharded_lem zero room emitted since v le h = absurd (omega arith)
  sharded_lem (suc fuel) room emitted since v le h = elim (Bool-cases (leb v 0xffffffff)) [
    | inr past ↦
        rw
          (
            past,
            sharded,
            picks_end wanted v (leb→lt v 0xffffffff past),
            take_nil (quota room emitted),
          )
          refl
    | inl inside ↦ elim (Bool-cases (not (cfg.limit == 0) && leb cfg.limit emitted)) [
      | inl full ↦ rw (inside, sharded, full, quota_full room emitted full) refl
      | inr free ↦ elim (Bool-cases (is_reserved v)) [
        | inl reserved ↦
            let (lt, top, same) = jump_lem wanted v wanted_reserved reserved in
            rw (inside, sharded, free, reserved, same)
              (sharded_lem fuel room emitted since (jump v) top (omega (arith, lt)))
        | inr routable ↦ elim (Bool-cases (in_shard_sample v cfg)) [
          | inr other ↦
              let room_left = leb→le v 0xffffffff inside in
              let miss = picks_miss wanted v (omega (arith, room_left)) (rw routable other) in
              rw (inside, sharded, free, routable, other, miss)
                (sharded_lem fuel room emitted since (v + 1) (omega (arith, room_left))
                  (omega arith))
          | inl mine ↦
              let room_left = leb→le v 0xffffffff inside in
              let hit = picks_hit wanted v (omega (arith, room_left)) (rw routable mine) in
              sent_lem fuel room emitted since v (inside, free, routable, mine, hit)
                (λ more next.
                  sharded_lem fuel more (emitted + 1) next (v + 1) (omega (arith, room_left))
                    (omega arith))
        ]
      ]
    ]
  ]
