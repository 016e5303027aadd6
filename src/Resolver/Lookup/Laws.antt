-- ===== src/Resolver/Lookup/Laws.antt =====
-- internal/resolver/resolver.go: names, status and attempts of a PTR lookup.
use r_dns_crawler.Base.{
  ℕ, zero, suc, ◌+◌, ◌≤◌, ◌<◌, ◌≡◌, refl, Bool, true, false, ◌||◌, List, [], ◌∷◌, Option, some,
  none, Bytes, bytes_eq, ◌==◌, if◌then◌else◌, arith, Bool-cases, inl, inr, Option-cases, codes,
}
use r_dns_crawler.Model.Status.{
  status_has_ptr, status_nx_domain, status_serv_fail, status_refused, status_net_error,
  status_timeout, status_no_error_empty, status_to_code, code_lame_delegation,
}
use r_dns_crawler.Resolver.{Resolver}
use r_dns_crawler.Resolver.Query.{
  Message, Reply, LastError, nil, transport, soft_rcode, is_definitive, Queried, give_up, server_at,
  query_loop, query,
}
use r_dns_crawler.Resolver.Query.Laws.{Reply-cases}
use r_dns_crawler.Resolver.Lookup.{
  contains, ptr_names, classify_err, classify_last, success_status, classify, ptr_result,
  lookup_ptr,
}

abbrev pub has_names : List Bytes → Bool
has_names [] = false
has_names (n ∷ ns) = true

-- The status of a lookup: one of the seven before `lame_delegation`.
abbrev pub IsOutcome : Bytes → Type 0
IsOutcome status = (c : ℕ) × (status_to_code status ≡ some c) × (c < code_lame_delegation)

-- The status says `has_ptr` exactly when there is a name.
abbrev pub Agrees : List Bytes → Bytes → Type 0
Agrees names status = (bytes_eq status status_has_ptr ≡ has_names names) × IsOutcome status

no_answer : Agrees [] status_no_error_empty
unfolding status_to_code bytes_eq
no_answer = (refl, (1, refl, omega arith))

no_domain : Agrees [] status_nx_domain
unfolding status_to_code bytes_eq
no_domain = (refl, (2, refl, omega arith))

failing : Agrees [] status_serv_fail
unfolding status_to_code bytes_eq
failing = (refl, (3, refl, omega arith))

refusing : Agrees [] status_refused
unfolding status_to_code bytes_eq
refusing = (refl, (4, refl, omega arith))

late : Agrees [] status_timeout
unfolding status_to_code bytes_eq
late = (refl, (5, refl, omega arith))

broken : Agrees [] status_net_error
unfolding status_to_code bytes_eq
broken = (refl, (6, refl, omega arith))

success_lem : (names : List Bytes) → Agrees names (success_status names)
unfolding success_status status_to_code bytes_eq
success_lem [] = no_answer
success_lem (n ∷ ns) = (refl, (0, refl, omega arith))

Agrees-if :
    (b : Bool) (x y : List Bytes × Bytes)
    → Agrees x.0 x.1
    → Agrees y.0 y.1
    → Agrees (if b then x else y).0 (if b then x else y).1
Agrees-if true x y hx hy = hx
Agrees-if false x y hx hy = hy

error_if : (b : Bool) (s t : Bytes) → Agrees [] s → Agrees [] t → Agrees [] (if b then s else t)
error_if true s t hs ht = hs
error_if false s t hs ht = ht

classify_lem : (m : Message) → Agrees (classify m).0 (classify m).1
unfolding classify
classify_lem m =
    Agrees-if (m.rcode == 0) (ptr_names m.answers, success_status (ptr_names m.answers)) _
      (success_lem (ptr_names m.answers))
      (Agrees-if (m.rcode == 3) ([], status_nx_domain) _ no_domain
        (Agrees-if (m.rcode == 2) ([], status_serv_fail) _ failing
          (Agrees-if (m.rcode == 5 || m.rcode == 4) ([], status_refused) ([], status_net_error)
            refusing broken)))

classify_last_lem : (e : LastError) → Agrees [] (classify_last e)
unfolding classify_last classify_err
classify_last_lem nil = broken
classify_last_lem (soft_rcode n) = broken
classify_last_lem (transport e) = error_if e.deadline_exceeded status_timeout _ late (
    error_if e.net_timeout status_timeout _ late (
      error_if (contains (codes "timeout") e.text || contains (codes "i/o timeout") e.text)
        status_timeout status_net_error late broken))

ptr_result_lem : (q : Queried) → Agrees (ptr_result q).names (ptr_result q).status
unfolding ptr_result
ptr_result_lem q = elim (Option-cases q.response) [
  | inl nothing ↦ rw (nothing, ptr_result) (classify_last_lem q.error)
  | inr (m, got) ↦ rw (got, ptr_result) (classify_lem m)
]

ptr_result_attempts : (q : Queried) → (ptr_result q).attempts ≡ q.attempts
unfolding ptr_result
ptr_result_attempts q = elim (Option-cases q.response) [
  | inl nothing ↦ rw (nothing, ptr_result) refl
  | inr (m, got) ↦ rw (got, ptr_result) refl
]

loop_attempts :
    (servers : List Bytes) (tickets : ℕ → ℕ) (exchange : ℕ → Bytes → Reply) (left k : ℕ)
    (lr : Option Message) (le : LastError) (s : Bytes)
    → (query_loop servers tickets exchange left k lr le s).attempts ≤ k + left
unfolding query_loop give_up
loop_attempts servers tickets exchange zero k none le s = omega arith
loop_attempts servers tickets exchange zero k (some m) le s = omega arith
loop_attempts servers tickets exchange (suc left) k lr le s =
    elim (Reply-cases (exchange k (server_at servers tickets k))) [
      | inl (e, fail) ↦
          rw (fail, query_loop)
            (omega (
              arith,
              loop_attempts servers tickets exchange left (k + 1) lr (transport e)
                  (server_at servers tickets k),
            ))
      | inr (m, reply) ↦ elim (Bool-cases (is_definitive m)) [
        | inl d ↦ rw (reply, query_loop, d) (omega arith)
        | inr d ↦
            rw (reply, query_loop, d)
              (omega (
                arith,
                loop_attempts servers tickets exchange left (k + 1) (some m) (soft_rcode m.rcode)
                    (server_at servers tickets k),
              ))
      ]
    ]

-- Whatever the servers reply: a PTR lookup reports the status `has_ptr` exactly when it reports a
-- name, its status is one of the seven before `lame_delegation`, and it makes at most `retries + 1`
-- attempts.
pub lookup_ptr_lem :
    (reverse_addr : Bytes → Option Bytes) (r : Resolver) (tickets : ℕ → ℕ)
    (exchange : ℕ → Bytes → Reply) (ip : Bytes)
    → let res = lookup_ptr reverse_addr r tickets exchange ip in
      Agrees res.names res.status × (res.attempts ≤ r.retries + 1)
unfolding lookup_ptr query
lookup_ptr_lem reverse_addr r tickets exchange ip = elim (Option-cases (reverse_addr ip)) [
  | inl bad ↦ rw (bad, lookup_ptr) (broken, omega arith)
  | inr (arpa, good) ↦
      rw (good, lookup_ptr)
        (
          ptr_result_lem (query r tickets exchange),
          omega (arith, ptr_result_attempts (query r tickets exchange), bound),
        )
]
  where
    bound : (query r tickets exchange).attempts ≤ r.retries + 1
    bound = omega (arith, loop_attempts r.servers tickets exchange (r.retries + 1) 0 none nil [])
