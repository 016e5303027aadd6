-- ===== src/Crawler/Process/Laws.antt =====
-- internal/crawler/crawler.go: when a record is confirmed, and which records have names.
use r_dns_crawler.Base.{
  ℕ, ◌+◌, ◌<◌, ◌≡◌, refl, ◌↔◌, ◌⊎◌, ◌^◌, Bool, true, false, ◌&&◌, List, [], ◌∷◌, Option, some, none,
  Bytes, Bool-cases, inl, inr,
}
use r_dns_crawler.Base.Results.{Result, ok, Result-cases}
use r_dns_crawler.Model.Status.{has_ptr}
use r_dns_crawler.Resolver.{Resolver}
use r_dns_crawler.Resolver.Query.{LastError, Reply}
use r_dns_crawler.Resolver.Lookup.{lookup_ptr}
use r_dns_crawler.Resolver.Lookup.Laws.{has_names, lookup_ptr_lem}
use r_dns_crawler.Ipgen.Address.{ip_equal, parse_ip, int_to_ip}
use r_dns_crawler.Ipgen.Address.Laws.{ip_to_int-int_to_ip}
use r_dns_crawler.Crawler.Process.{Observed, Stats, any_equal, confirms, process}

-- An address of the list is the target.
pub data Reaches (target : Bytes) : List Bytes → Type 0 where
  hit : {a : Bytes} {addrs : List Bytes} → ip_equal a target ≡ true → Reaches target (a ∷ addrs)
  next : {a : Bytes} {addrs : List Bytes} → Reaches target addrs → Reaches target (a ∷ addrs)

-- A name of the list, the k-th on, has an address that is the target.
pub data Confirmed (lookup_a : ℕ → Bytes → Result LastError (List Bytes)) (target : Bytes)
    : ℕ → List Bytes → Type 0 where
  here :
      {k : ℕ} {name : Bytes} {names addrs : List Bytes}
      → lookup_a k name ≡ ok addrs
      → Reaches target addrs
      → Confirmed lookup_a target k (name ∷ names)
  later :
      {k : ℕ} {name : Bytes} {names : List Bytes}
      → Confirmed lookup_a target (k + 1) names
      → Confirmed lookup_a target k (name ∷ names)

any_equal→Reaches :
    (target : Bytes) (addrs : List Bytes) → any_equal target addrs ≡ true → Reaches target addrs
unfolding any_equal
any_equal→Reaches target [] h = absurd (cc)
any_equal→Reaches target (a ∷ addrs) h = elim (Bool-cases (ip_equal a target)) [
  | inl same ↦ hit same
  | inr differ ↦ next (any_equal→Reaches target addrs (rw differ at h))
]

Reaches→any_equal :
    (target : Bytes) {addrs : List Bytes} → Reaches target addrs → any_equal target addrs ≡ true
unfolding any_equal
Reaches→any_equal target (hit same) = rw same refl
Reaches→any_equal target (next {a} r) = elim (Bool-cases (ip_equal a target)) [
  | inl same ↦ rw same refl
  | inr differ ↦ rw differ (Reaches→any_equal target r)
]

module _ (lookup_a : ℕ → Bytes → Result LastError (List Bytes)) (target : Bytes) where
  confirms→Confirmed :
      (k : ℕ) (names : List Bytes)
      → confirms lookup_a target k names ≡ true
      → Confirmed lookup_a target k names
  unfolding confirms
  confirms→Confirmed k [] h = absurd (cc)
  confirms→Confirmed k (name ∷ names) h = elim (Result-cases (lookup_a k name)) [
    | inr (e, failed) ↦ later (confirms→Confirmed (k + 1) names (rw (failed, confirms) at h))
    | inl (addrs, answered) ↦ elim (Bool-cases (any_equal target addrs)) [
      | inl found ↦ here answered (any_equal→Reaches target addrs found)
      | inr other ↦ later (confirms→Confirmed (k + 1) names (rw (answered, confirms, other) at h))
    ]
  ]

  Confirmed→confirms :
      (k : ℕ) {names : List Bytes}
      → Confirmed lookup_a target k names
      → confirms lookup_a target k names ≡ true
  unfolding confirms
  Confirmed→confirms k (here answered r) = rw (answered, confirms, Reaches→any_equal target r) refl
  Confirmed→confirms k (later {name} c) = elim (Result-cases (lookup_a k name)) [
    | inr (e, failed) ↦ rw (failed, confirms) (Confirmed→confirms (k + 1) c)
    | inl (addrs, answered) ↦ elim (Bool-cases (any_equal target addrs)) [
      | inl found ↦ rw (answered, confirms, found) refl
      | inr other ↦ rw (answered, confirms, other) (Confirmed→confirms (k + 1) c)
    ]
  ]

-- For every uint32 address in the print of `IntToIP`, whatever the servers reply: the record has
-- the address as its number, the status `has_ptr` exactly when it has a name, and a confirmation
-- exactly when that is asked for and there is a name; and it says yes exactly when a name of the
-- record has, by the answers for that name, the address itself.
pub process_lem :
    (parse_v6 : Bytes → Bytes) (lookup_a : ℕ → Bytes → Result LastError (List Bytes)) (check : Bool)
    (reverse_addr : Bytes → Option Bytes) (r : Resolver) (tickets : ℕ → ℕ)
    (exchange : ℕ → Bytes → Reply) (seen : Observed) (stats : Stats) (v : ℕ)
    → v < 2 ^ 32
    → let ip = int_to_ip v in
      let rec =
        (process parse_v6 lookup_a check ip
          (lookup_ptr reverse_addr r tickets exchange ip)
          seen
          stats).0 in
      (rec.ip_int ≡ v)
      × (has_ptr rec.status ≡ has_names rec.ptr)
      × ((((check && has_names rec.ptr) ≡ false) × (rec.f_cr_dns ≡ none))
          ⊎ (((check && has_names rec.ptr) ≡ true)
              × (b : Bool) × (rec.f_cr_dns ≡ some b)
              × ((b ≡ true) ↔ Confirmed lookup_a (parse_ip parse_v6 ip) 0 rec.ptr)))
unfolding process has_ptr
process_lem parse_v6 lookup_a check reverse_addr r tickets exchange seen stats v h =
    let ip = int_to_ip v in
    let ptr = lookup_ptr reverse_addr r tickets exchange ip in
    let named = (lookup_ptr_lem reverse_addr r tickets exchange ip).0.0 in
    (
      ip_to_int-int_to_ip parse_v6 v h,
      named,
      elim (Bool-cases (check && has_names ptr.names)) [
        | inl asked ↦ inr (
          asked,
          confirms lookup_a (parse_ip parse_v6 ip) 0 ptr.names,
          rw (named, asked) refl,
          (
            confirms→Confirmed lookup_a (parse_ip parse_v6 ip) 0 ptr.names,
            Confirmed→confirms lookup_a (parse_ip parse_v6 ip) 0,
          ),
        )
        | inr unasked ↦ inl (unasked, rw (named, unasked) refl)
      ],
    )
