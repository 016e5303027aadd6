-- ===== src/Compare/Join/Counted.antt =====
-- internal/compare/compare.go: the transition matrix against the count of the targets.
use r_dns_crawler.Base.{
  some_injective, ℕ, zero, suc, ◌+◌, ◌<◌, ◌≡◌, refl, sym, ap, ◌∙◌, Bool, true, false, not, ◌&&◌,
  List, [], ◌∷◌, Option, some, none, bit_or, get_elem?, ltb, ◌==◌, if◌then◌else◌, arith, All,
  Bool-cases, ltb→lt, and_left, and_right, inl, inr, subst,
}
use r_dns_crawler.Base.Tables.{all_below, all_below→holds}
use r_dns_crawler.Base.Keyed.Laws.{first_of, Ascending}
use r_dns_crawler.Base.Keyed.Laws.Search.{All-get}
use r_dns_crawler.Store.Block.{Rec}
use r_dns_crawler.Merge.Spec.{observation}
use r_dns_crawler.Compare.Load.{OldEnt}
use r_dns_crawler.Compare.Join.{missing_col, set_seen, bit}

-- The column of a target by the first record of its address in the new pass.
abbrev pub column : Option Rec → ℕ
column none = missing_col
column (some r) = r.status

-- A target that no record has reached makes the transition.
abbrev pub moves : (from to : ℕ) → Option Rec → OldEnt → Bool
moves from to o e = not (bit e.flags 4) && (e.status == from && column o == to)

-- How many of the targets make it.
abbrev pub moving : (from to : ℕ) → List Rec → List OldEnt → ℕ
moving from to news [] = 0
moving from to news (e ∷ es) =
    let n = moving from to news es in if moves from to (observation e.ip news) e then n + 1 else n

-- The entries of targets, in the order of their addresses.
abbrev pub IsTarget : OldEnt → Type 0
IsTarget e = (ltb e.flags 8 ≡ true) × (ltb e.status 8 ≡ true)

abbrev pub AreTargets : List OldEnt → Type 0
AreTargets es = Ascending (λ e. e.ip) es × All IsTarget es

seen_bits : all_below 8 (λ f. bit (bit_or f 4) 4 && ltb (bit_or f 4) 8) ≡ true
unfolding all_below
seen_bits = refl

pub seen_lem : (f : ℕ) → ltb f 8 ≡ true → (bit (bit_or f 4) 4 ≡ true) × (ltb (bit_or f 4) 8 ≡ true)
seen_lem f h =
    let t =
      all_below→holds 8 (λ f. bit (bit_or f 4) 4 && ltb (bit_or f 4) 8) seen_bits f
        (ltb→lt f 8 h) in
    (and_left _ _ t, and_right _ _ t)

abbrev plus_if : Bool → ℕ → ℕ
plus_if b n = if b then n + 1 else n

plus_if_swap : (a b : Bool) (n : ℕ) → plus_if a (plus_if b n) ≡ plus_if b (plus_if a n)
plus_if_swap true b n = ground arith
plus_if_swap false b n = refl

module _ (from to : ℕ) where
  observation_other :
      (ip : ℕ) (r : Rec) (news : List Rec)
      → (ip == r.ip) ≡ false
      → observation ip (r ∷ news) ≡ observation ip news
  observation_other ip r news h = let miss : (r.ip == ip) ≡ false = ground arith in rw miss refl

  -- A record of another address changes nothing.
  pub moving_other :
      (r : Rec) (news : List Rec) (es : List OldEnt)
      → first_of (λ e. e.ip) r.ip es ≡ none
      → moving from to (r ∷ news) es ≡ moving from to news es
  moving_other r news [] h = refl
  moving_other r news (e ∷ es) h = elim (Bool-cases (e.ip == r.ip)) [
    | inl same ↦ absurd (cc (rw same at h))
    | inr differ ↦
        ap
          (λ o.
            if moves from to o e
            then moving from to (r ∷ news) es + 1
            else moving from to (r ∷ news) es)
          (observation_other e.ip r news differ)
        ∙ ap (λ n. if moves from to (observation e.ip news) e then n + 1 else n)
            (moving_other r news es (rw differ at h))
  ]

  none_above :
      (k : ℕ) (es : List OldEnt) → All (λ d. k < d.ip) es → first_of (λ e. e.ip) k es ≡ none
  none_above k [] h = refl
  none_above k (e ∷ es) h =
      let miss : (e.ip == k) ≡ false = ground (arith, h.0) in rw miss (none_above k es h.1)

  -- The record of a target counts it, and marks it.
  moving_head :
      (r : Rec) (news : List Rec) (es : List OldEnt) (e : OldEnt)
      → AreTargets (e ∷ es)
      → e.ip ≡ r.ip
      → moving from to (r ∷ news) (e ∷ es)
        ≡ plus_if (moves from to (some r) e) (moving from to news (set_seen 0 (e ∷ es)))
  unfolding set_seen
  moving_head r news es e v same =
      let hit : (r.ip == e.ip) ≡ true = ground arith in
      let seen = (seen_lem e.flags v.1.0.0).0 in
      let above = subst (λ k. All (λ d. k < d.ip) es) same v.0.0 in
      rw (hit, seen)
        (ap (plus_if (moves from to (some r) e))
          (moving_other r news es (none_above r.ip es above)))

  pub moving_found :
      (r : Rec) (news : List Rec) (es : List OldEnt) (i : ℕ) (e : OldEnt)
      → AreTargets es
      → get_elem? es i ≡ some e
      → e.ip ≡ r.ip
      → moving from to (r ∷ news) es
        ≡ plus_if (moves from to (some r) e) (moving from to news (set_seen i es))
  unfolding set_seen
  moving_found r news [] i e v h same = absurd (cc)
  moving_found r news (d ∷ es) zero e v h same =
      let eq : d ≡ e = some_injective h in
      subst
        (λ x.
          moving from to (r ∷ news) (d ∷ es)
          ≡ plus_if (moves from to (some r) x) (moving from to news (set_seen 0 (d ∷ es))))
        eq (moving_head r news es d v (ap (λ x. x.ip) eq ∙ same))
  moving_found r news (d ∷ es) (suc i) e v h same =
      let below = All-get (λ x. x.ip) d.ip es i e v.0.0 h in
      let other : (d.ip == r.ip) ≡ false = ground (arith, below) in
      ap (λ o. plus_if (moves from to o d) (moving from to (r ∷ news) es))
        (observation_other d.ip r news other)
      ∙ ap (plus_if (moves from to (observation d.ip news) d))
          (moving_found r news es i e (v.0.1, v.1.1) h same)
      ∙ plus_if_swap (moves from to (observation d.ip news) d) (moves from to (some r) e)
          (moving from to news (set_seen i es))

  -- Marking a target again changes nothing.
  pub moving_again :
      (news : List Rec) (es : List OldEnt) (i : ℕ) (e : OldEnt)
      → All IsTarget es
      → get_elem? es i ≡ some e
      → bit e.flags 4 ≡ true
      → moving from to news (set_seen i es) ≡ moving from to news es
  unfolding set_seen
  moving_again news [] i e v h old = absurd (cc)
  moving_again news (d ∷ es) zero e v h old =
      let eq : d ≡ e = some_injective h in
      let seen : bit d.flags 4 ≡ true = subst (λ x. bit x.flags 4 ≡ true) (sym eq) old in
      rw (seen, (seen_lem d.flags v.0.0).0) refl
  moving_again news (d ∷ es) (suc i) e v h old =
      ap (plus_if (moves from to (observation d.ip news) d)) (moving_again news es i e v.1 h old)
