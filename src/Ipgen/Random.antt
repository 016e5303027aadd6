-- ===== src/Ipgen/Random.antt =====
-- internal/ipgen/ipgen.go, `GenerateRandom`. The random generator is the list of its draws, each a
-- uint32; `room` is the number of sends that go through before the context is cancelled.
pub mod Laws
use r_dns_crawler.Base.{
  ℕ, zero, suc, ◌+◌, ◌-◌, ◌≤◌, ◌≡◌, refl, Bool, true, false, ◌&&◌, ◌||◌, List, [], ◌∷◌, Option,
  some, none, length, ltb, ◌==◌, if◌then◌else◌, arith, All, Bool-cases, ltb→lt, inl, inr, ◌⊎◌,
}
use r_dns_crawler.Ipgen.Reserved.{is_reserved}
use r_dns_crawler.Ipgen.Walk.{Event, emit, stuck}

-- A key of the map `seen`.
abbrev pub member : ℕ → List ℕ → Bool
member v [] = false
member v (w ∷ seen) = w == v || member v seen

-- The loop; without a draw left it is `stuck`.
unfoldable pub random : (room n : ℕ) → (seen draws : List ℕ) → List Event
random room n seen [] = elim (ltb (length seen) n) [ false ↦ [] | true ↦ stuck ∷ [] ]
random room n seen (v ∷ draws) = elim (ltb (length seen) n) [
  | false ↦ []
  | true ↦ elim (is_reserved v) [
    | true ↦ random room n seen draws
    | false ↦ elim (member v seen) [
      | true ↦ random room n seen draws
      | false ↦ elim room [ zero ↦ [] | suc more ↦ emit v ∷ random more n (v ∷ seen) draws ]
    ]
  ]
]

unfoldable pub generate_random : (room n : ℕ) → (draws : List ℕ) → List Event
generate_random room n draws = random room n [] draws
