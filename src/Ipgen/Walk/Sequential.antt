-- ===== src/Ipgen/Walk/Sequential.antt =====
-- internal/ipgen/ipgen.go: what `GenerateSequential` emits.
use r_dns_crawler.Base.{
  ℕ, zero, suc, ◌+◌, ◌-◌, ◌≤◌, ◌<◌, ◌≡◌, refl, Bool, true, false, ◌&&◌, not, ltb, leb, arith,
  Bool-cases, inl, inr, take, take_nil, some, ◌∷◌, and_left, and_right, ◌⊎◌,
}
use r_dns_crawler.Ipgen.Reserved.{is_reserved}
use r_dns_crawler.Ipgen.Reserved.Laws.{picks}
use r_dns_crawler.Ipgen.Walk.{jump, sequential}
use r_dns_crawler.Ipgen.Walk.Sharded.{emits, walk_end, jump_lem, picks_end, picks_hit, leb→le, min}

abbrev pub routable : ℕ → Bool
routable v = not (is_reserved v)

routable_reserved : (i : ℕ) → is_reserved i ≡ true → routable i ≡ false
routable_reserved i h = rw h refl

over :
    (emitted count v : ℕ)
    → (ltb emitted count && leb v 0xffffffff) ≡ false
    → (count ≤ emitted) ⊎ (walk_end ≤ v)
over emitted count v h = elim (Bool-cases (ltb emitted count)) [
  | inl more ↦ inr (ground arith)
  | inr full ↦ inl (ground arith)
]

min_full : (room count emitted : ℕ) → count ≤ emitted → min room (count - emitted) ≡ 0
min_full room count emitted h = ground arith

min_next :
    (more count emitted : ℕ)
    → (ltb emitted count) ≡ true
    → min (suc more) (count - emitted) ≡ suc (min more (count - (emitted + 1)))
min_next more count emitted h = ground arith

min_zero : (n : ℕ) → min 0 n ≡ 0
min_zero n = ground arith

sent_lem :
    (fuel room count emitted v : ℕ)
    → ((ltb emitted count && leb v 0xffffffff) ≡ true)
      × (is_reserved v ≡ false)
      × (picks routable v (walk_end - v) ≡ v ∷ picks routable (v + 1) (walk_end - (v + 1)))
    → ((more : ℕ)
        → emits (sequential fuel more count (emitted + 1) (v + 1))
          ≡ some (
              take
                (min more (count - (emitted + 1)))
                (picks routable (v + 1) (walk_end - (v + 1)))))
    → emits (sequential (suc fuel) room count emitted v)
      ≡ some (take (min room (count - emitted)) (picks routable v (walk_end - v)))
unfolding sequential
sent_lem fuel zero count emitted v (on, free, hit) ih =
    rw (on, sequential, free, min_zero (count - emitted)) refl
sent_lem fuel (suc more) count emitted v (on, free, hit) ih =
    rw
      (
        on,
        sequential,
        free,
        hit,
        min_next more count emitted (and_left (ltb emitted count) (leb v 0xffffffff) on),
        ih more,
      )
      refl

pub sequential_lem :
    (fuel room count emitted v : ℕ)
    → v ≤ walk_end
    → walk_end < fuel + v
    → emits (sequential fuel room count emitted v)
      ≡ some (take (min room (count - emitted)) (picks routable v (walk_end - v)))
unfolding sequential
sequential_lem zero room count emitted v le h = absurd (omega arith)
sequential_lem (suc fuel) room count emitted v le h =
    elim (Bool-cases (ltb emitted count && leb v 0xffffffff)) [
      | inr out ↦ elim (over emitted count v out) [
        | inl full ↦ rw (out, sequential, min_full room count emitted full) refl
        | inr past ↦
            rw (out, sequential, picks_end routable v past, take_nil (min room (count - emitted)))
              refl
      ]
      | inl on ↦ elim (Bool-cases (is_reserved v)) [
        | inl reserved ↦
            let (lt, top, same) = jump_lem routable v routable_reserved reserved in
            rw (on, sequential, reserved, same)
              (sequential_lem fuel room count emitted (jump v) top (omega (arith, lt)))
        | inr free ↦
            let below = leb→le v 0xffffffff (and_right (ltb emitted count) (leb v 0xffffffff) on) in
            let hit = picks_hit routable v (omega (arith, below)) (rw free refl) in
            sent_lem fuel room count emitted v (on, free, hit)
              (λ more.
                sequential_lem fuel more count (emitted + 1) (v + 1) (omega (arith, below))
                  (omega arith))
      ]
    ]
