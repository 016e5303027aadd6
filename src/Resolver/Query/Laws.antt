-- ===== src/Resolver/Query/Laws.antt =====
-- internal/resolver/resolver.go: which attempt `query` answers with.
use r_dns_crawler.Base.{
  ℕ, zero, suc, ◌+◌, ◌%◌, ◌^◌, ◌≤◌, ◌<◌, ◌≡◌, refl, ap, Bool, true, false, List, [], Option, some,
  none, Bytes, ◌==◌, arith, length, get_elem?, ◌∙◌, sym, ◌⊎◌, inl, inr, ◌≢◌, Bool-cases, ==→eq,
  ==→ne,
}
use r_dns_crawler.Resolver.{Resolver, pick}
use r_dns_crawler.Resolver.Query.{
  Message, NetError, Reply, answered, failed, LastError, nil, transport, soft_rcode, is_definitive,
  Queried, give_up, server_at, query_loop, query,
}

abbrev pub is_definitive_reply : Reply → Bool
is_definitive_reply (answered m) = is_definitive m
is_definitive_reply (failed e) = false

abbrev pub is_failed : Reply → Bool
is_failed (answered m) = false
is_failed (failed e) = true

pub Reply-cases :
    (r : Reply) → ((e : NetError) × (r ≡ failed e)) ⊎ ((m : Message) × (r ≡ answered m))
Reply-cases (failed e) = inl (e, refl)
Reply-cases (answered m) = inr (m, refl)

dec_eq : (a b : ℕ) → (a ≡ b) ⊎ (a ≢ b)
dec_eq a b = elim (Bool-cases (a == b)) [ inl e ↦ inl (==→eq a b e) | inr e ↦ inr (==→ne a b e) ]

rounds :
    (r : Resolver) (tickets : ℕ → ℕ) (exchange : ℕ → Bytes → Reply)
    → query r tickets exchange ≡ query_loop r.servers tickets exchange (suc r.retries) 0 none nil []
unfolding query
rounds r tickets exchange =
    let e : r.retries + 1 ≡ suc r.retries = omega arith in
    ap (λ n. query_loop r.servers tickets exchange n 0 none nil []) e

module _ (servers : List Bytes) (tickets : ℕ → ℕ) (exchange : ℕ → Bytes → Reply) where
  abbrev pub reply_at : ℕ → Reply
  reply_at k = exchange k (server_at servers tickets k)

  soft :
      (k : ℕ) (m : Message)
      → is_definitive_reply (reply_at k) ≡ false
      → reply_at k ≡ answered m
      → is_definitive m ≡ false
  soft k m h reply = sym (ap is_definitive_reply reply) ∙ h

  step_hit :
      (left k : ℕ) (lr : Option Message) (le : LastError) (s : Bytes) (m : Message)
      → reply_at k ≡ answered m
      → is_definitive m ≡ true
      → query_loop servers tickets exchange (suc left) k lr le s ≡ record {
        response = some m;
        error = nil;
        server = server_at servers tickets k;
        attempts = k + 1;
      }
  unfolding query_loop
  step_hit left k lr le s m h d = rw (h, query_loop, d) refl

  step_soft :
      (left k : ℕ) (lr : Option Message) (le : LastError) (s : Bytes) (m : Message)
      → reply_at k ≡ answered m
      → is_definitive m ≡ false
      → query_loop servers tickets exchange (suc left) k lr le s
        ≡ query_loop servers tickets exchange left
            (k + 1)
            (some m)
            (soft_rcode m.rcode)
            (server_at servers tickets k)
  unfolding query_loop
  step_soft left k lr le s m h d = rw (h, query_loop, d) refl

  step_failed :
      (left k : ℕ) (lr : Option Message) (le : LastError) (s : Bytes) (e : NetError)
      → reply_at k ≡ failed e
      → query_loop servers tickets exchange (suc left) k lr le s
        ≡ query_loop servers tickets exchange left
            (k + 1)
            lr
            (transport e)
            (server_at servers tickets k)
  unfolding query_loop
  step_failed left k lr le s e h = rw (h, query_loop) refl

  loop_first :
      (left k i : ℕ) (lr : Option Message) (le : LastError) (s : Bytes) (m : Message)
      → k ≤ i
      → i < k + left
      → ((j : ℕ) → k ≤ j → j < i → is_definitive_reply (reply_at j) ≡ false)
      → reply_at i ≡ answered m
      → is_definitive m ≡ true
      → query_loop servers tickets exchange left k lr le s ≡ record {
        response = some m;
        error = nil;
        server = server_at servers tickets i;
        attempts = i + 1;
      }
  loop_first zero k i lr le s m lo hi before h d = absurd (omega arith)
  loop_first (suc left) k i lr le s m lo hi before h d = elim (dec_eq k i) [
    | inl same ↦
        step_hit left k lr le s m (ap reply_at same ∙ h) d
        ∙ ap
            (λ n. record {
              response = some m;
              error = nil;
              server = server_at servers tickets n;
              attempts = n + 1;
            })
            same
    | inr differ ↦ elim (Reply-cases (reply_at k)) [
      | inl (e, fail) ↦
          step_failed left k lr le s e fail
          ∙ loop_first left (k + 1) i lr (transport e) (server_at servers tickets k) m
              (omega (arith, differ)) (omega arith) (λ j lo' hi'. before j (omega arith) hi') h d
      | inr (m', reply) ↦
          step_soft left k lr le s m' reply
            (soft k m' (before k (omega arith) (omega (arith, differ))) reply)
          ∙ loop_first left (k + 1) i (some m') (soft_rcode m'.rcode) (server_at servers tickets k)
              m (omega (arith, differ)) (omega arith) (λ j lo' hi'. before j (omega arith) hi') h d
    ]
  ]

  -- The rounds from `k` on all fail in transport.
  loop_failed :
      (left k last : ℕ) (lr : Option Message) (le : LastError) (s : Bytes) (e : NetError)
      → k + left ≡ last
      → ((j : ℕ) → k ≤ j → j ≤ last → is_failed (reply_at j) ≡ true)
      → reply_at last ≡ failed e
      → query_loop servers tickets exchange (suc left) k lr le s
        ≡ give_up lr (transport e) (server_at servers tickets last) (last + 1)
  unfolding query_loop
  loop_failed zero k last lr le s e eq all h =
      let same : k ≡ last = omega arith in
      step_failed zero k lr le s e (ap reply_at same ∙ h)
      ∙ ap (λ n. give_up lr (transport e) (server_at servers tickets n) (n + 1)) same
  loop_failed (suc left) k last lr le s e eq all h = elim (Reply-cases (reply_at k)) [
    | inl (e', fail) ↦
        step_failed (suc left) k lr le s e' fail
        ∙ loop_failed left (k + 1) last lr (transport e') (server_at servers tickets k) e
            (omega arith) (λ j lo hi. all j (omega arith) (omega arith)) h
    | inr (m, reply) ↦
        absurd (ground (arith, all k (omega arith) (omega arith), ap is_failed reply))
  ]

  abbrev gave_up : ℕ → Message → Queried
  gave_up last m = record {
    response = some m;
    error = nil;
    server = server_at servers tickets last;
    attempts = last + 1;
  }

  -- Behind the last response there are failures only.
  loop_behind :
      (left k last : ℕ) (le : LastError) (m : Message)
      → k + left ≡ last
      → ((j : ℕ) → k < j → j ≤ last → is_failed (reply_at j) ≡ true)
      → query_loop servers tickets exchange left (k + 1) (some m) le (server_at servers tickets k)
        ≡ gave_up last m
  unfolding query_loop give_up
  loop_behind zero k last le m eq after =
      let same : k ≡ last = omega arith in ap (λ n. gave_up n m) same
  loop_behind (suc left) k last le m eq after = elim (Reply-cases (reply_at last)) [
    | inl (e, fail) ↦
        loop_failed left (k + 1) last (some m) le (server_at servers tickets k) e (omega arith)
          (λ j lo hi. after j (omega arith) hi) fail
    | inr (m', reply) ↦
        absurd (ground (arith, after last (omega arith) (omega arith), ap is_failed reply))
  ]

  -- No reply is definitive, and the one at `i` is the last response.
  loop_soft :
      (left k i last : ℕ) (lr : Option Message) (le : LastError) (s : Bytes) (m : Message)
      → k + left ≡ last
      → k ≤ i
      → i ≤ last
      → ((j : ℕ) → k ≤ j → j ≤ last → is_definitive_reply (reply_at j) ≡ false)
      → reply_at i ≡ answered m
      → ((j : ℕ) → i < j → j ≤ last → is_failed (reply_at j) ≡ true)
      → query_loop servers tickets exchange (suc left) k lr le s ≡ gave_up last m
  loop_soft zero k i last lr le s m eq lo hi none_definitive h after =
      let same : k ≡ i = omega arith in
      step_soft zero k lr le s m (ap reply_at same ∙ h) (soft i m (none_definitive i lo hi) h)
      ∙ loop_behind zero k last (soft_rcode m.rcode) m eq
          (λ j lo' hi'. after j (omega (arith, same)) hi')
  loop_soft (suc left) k i last lr le s m eq lo hi none_definitive h after = elim (dec_eq k i) [
    | inl same ↦
        step_soft (suc left) k lr le s m (ap reply_at same ∙ h)
          (soft i m (none_definitive i lo hi) h)
        ∙ loop_behind (suc left) k last (soft_rcode m.rcode) m eq
            (λ j lo' hi'. after j (omega (arith, same)) hi')
    | inr differ ↦ elim (Reply-cases (reply_at k)) [
      | inl (e, fail) ↦
          step_failed (suc left) k lr le s e fail
          ∙ loop_soft left (k + 1) i last lr (transport e) (server_at servers tickets k) m
              (omega arith) (omega (arith, differ)) hi
              (λ j lo' hi'. none_definitive j (omega arith) hi') h after
      | inr (m', reply) ↦
          step_soft (suc left) k lr le s m' reply
            (soft k m' (none_definitive k (omega arith) (omega arith)) reply)
          ∙ loop_soft left (k + 1) i last (some m') (soft_rcode m'.rcode)
              (server_at servers tickets k) m (omega arith) (omega (arith, differ)) hi
              (λ j lo' hi'. none_definitive j (omega arith) hi') h after
    ]
  ]

-- The reply of the k-th exchange of a query.
abbrev pub reply : Resolver → (ℕ → ℕ) → (ℕ → Bytes → Reply) → ℕ → Reply
reply r tickets exchange k = exchange k (server_at r.servers tickets k)

-- When the reply to attempt `i`, counted from 0, is definitive and no earlier one is, `query`
-- returns that response with the server it came from and stops after `i + 1` attempts.
pub query_first :
    (r : Resolver) (tickets : ℕ → ℕ) (exchange : ℕ → Bytes → Reply) (i : ℕ) (m : Message)
    → i ≤ r.retries
    → ((j : ℕ) → j < i → is_definitive_reply (reply r tickets exchange j) ≡ false)
    → reply r tickets exchange i ≡ answered m
    → is_definitive m ≡ true
    → query r tickets exchange ≡ record {
      response = some m;
      error = nil;
      server = server_at r.servers tickets i;
      attempts = i + 1;
    }
unfolding query
query_first r tickets exchange i m hi before h d =
    loop_first r.servers tickets exchange (r.retries + 1) 0 i none nil [] m (omega arith)
      (omega arith) (λ j lo lt. before j lt) h d

-- When no attempt has a definitive reply, the one at `i` is a response and all later ones fail in
-- transport, `query` returns the response of attempt `i`, after `retries + 1` attempts, but with the
-- server of the last attempt.
pub query_soft :
    (r : Resolver) (tickets : ℕ → ℕ) (exchange : ℕ → Bytes → Reply) (i : ℕ) (m : Message)
    → i ≤ r.retries
    → ((j : ℕ) → j ≤ r.retries → is_definitive_reply (reply r tickets exchange j) ≡ false)
    → reply r tickets exchange i ≡ answered m
    → ((j : ℕ) → i < j → j ≤ r.retries → is_failed (reply r tickets exchange j) ≡ true)
    → query r tickets exchange ≡ record {
      response = some m;
      error = nil;
      server = server_at r.servers tickets r.retries;
      attempts = r.retries + 1;
    }
unfolding query
query_soft r tickets exchange i m hi none_definitive h after =
    rounds r tickets exchange
    ∙ loop_soft r.servers tickets exchange r.retries 0 i r.retries none nil [] m (omega arith)
        (omega arith) hi (λ j lo hi'. none_definitive j hi') h after

-- When every attempt fails in transport, `query` returns no response, and the error and the server
-- of the last of `retries + 1` attempts.
pub query_failed :
    (r : Resolver) (tickets : ℕ → ℕ) (exchange : ℕ → Bytes → Reply) (e : NetError)
    → ((j : ℕ) → j ≤ r.retries → is_failed (reply r tickets exchange j) ≡ true)
    → reply r tickets exchange r.retries ≡ failed e
    → query r tickets exchange ≡ record {
      response = none;
      error = transport e;
      server = server_at r.servers tickets r.retries;
      attempts = r.retries + 1;
    }
unfolding query give_up
query_failed r tickets exchange e all h =
    rounds r tickets exchange
    ∙ loop_failed r.servers tickets exchange r.retries 0 r.retries none nil [] e (omega arith)
        (λ j lo hi. all j hi) h

pick-eq :
    (servers : List Bytes) (i k j l : ℕ)
    → (i + k) % 2 ^ 64 % length servers ≡ (j + l) % 2 ^ 64 % length servers
    → pick servers i k ≡ pick servers j l
unfolding pick
pick-eq servers i k j l e = ap (λ n. elim (get_elem? servers n) [ some s ↦ s | none ↦ [] ]) e

-- With a pool of two servers and no other goroutine at the counter, which stands at `c`, every
-- attempt of a query goes to the same server: a retry never reaches the other one.
pub server_at_two :
    (servers : List Bytes) (c k : ℕ)
    → length servers ≡ 2
    → server_at servers (λ j. (c + 1 + j) % 2 ^ 64) k
      ≡ server_at servers (λ j. (c + 1 + j) % 2 ^ 64) 0
unfolding server_at
server_at_two servers c k two =
    let same : ((c + 1 + k) % 2 ^ 64 + k) % 2 ^ 64 % 2 ≡ ((c + 1 + 0) % 2 ^ 64 + 0) % 2 ^ 64 % 2 =
      omega arith in
    pick-eq servers ((c + 1 + k) % 2 ^ 64) k ((c + 1 + 0) % 2 ^ 64) 0 (rw two same)
