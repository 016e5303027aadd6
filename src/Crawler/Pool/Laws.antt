-- ===== src/Crawler/Pool/Laws.antt =====
-- internal/crawler/crawler.go, `Run`: what holds in every state of the pool, and how it ends.
use mathlib.Core.List.{Permᴰ}
use mathlib.Core.List.Permᴰ
use r_dns_crawler.Base.{
  ℕ, zero, suc, ◌+◌, ◌*◌, ◌≤◌, ◌<◌, ◌≡◌, refl, sym, ap, subst, ◌∙◌, ◌⊎◌, inl, inr, true, false,
  List, [], ◌∷◌, ◌++◌, Bytes, length, arith, append-nil,
}
use r_dns_crawler.Base.Perms.{length-perm}
use r_dns_crawler.Crawler.Pool.{
  Pool, Work, receive, send, give_up, leave, Reachable, begin, work, cancel, start,
}

-- Every address, wherever it is.
abbrev pub accounted : Pool → List Bytes
accounted s = s.todo ++ (s.flight ++ (s.sent ++ s.dropped))

-- Each worker and each address is somewhere; nothing is given up, and no worker returns while
-- there is something to do, unless the context is cancelled.
record IsPool (n : ℕ) (ips : List Bytes) (s : Pool) : Type 0 where
  workers : s.idle + length s.flight + s.stopped ≡ n
  all_there : Permᴰ (accounted s) ips
  kept : (s.cancelled ≡ true) ⊎ ((s.dropped ≡ []) × ((s.stopped ≡ 0) ⊎ (s.todo ≡ [])))

out_of_flight :
    (ip : Bytes) (todo flight rest done : List Bytes)
    → Permᴰ flight (ip ∷ rest)
    → Permᴰ (todo ++ (rest ++ (ip ∷ done))) (todo ++ (flight ++ done))
out_of_flight ip todo flight rest done p =
    Permᴰ.append_left todo
      (Permᴰ.trans (Permᴰ.middle ip rest done) (Permᴰ.symm (Permᴰ.append_right done p)))

module _ {n : ℕ} {ips : List Bytes} where
  work-IsPool : {s s' : Pool} → IsPool n ips s → Work s s' → IsPool n ips s'
  work-IsPool {s} v (receive {ip} {rest} todo idle) = record {
    workers = omega (arith, v.workers, idle);
    all_there =
        Permᴰ.trans (Permᴰ.middle ip rest (s.flight ++ (s.sent ++ s.dropped)))
          (subst (λ t. Permᴰ (t ++ (s.flight ++ (s.sent ++ s.dropped))) ips) todo v.all_there);
    kept = still v.kept;
  }
    where
      still :
          (s.cancelled ≡ true) ⊎ ((s.dropped ≡ []) × ((s.stopped ≡ 0) ⊎ (s.todo ≡ [])))
          → (s.cancelled ≡ true) ⊎ ((s.dropped ≡ []) × ((s.stopped ≡ 0) ⊎ (rest ≡ [])))
      still (inl c) = inl c
      still (inr (d, inl none_left)) = inr (d, inl none_left)
      still (inr (d, inr empty)) = absurd (cc (sym todo ∙ empty))
  work-IsPool {s} v (send {ip} {rest} p) = record {
    workers = omega (arith, v.workers, length-perm p);
    all_there =
        Permᴰ.trans (out_of_flight ip s.todo s.flight rest (s.sent ++ s.dropped) p) v.all_there;
    kept = v.kept;
  }
  work-IsPool {s} v (give_up {ip} {rest} c p) = record {
    workers = omega (arith, v.workers, length-perm p);
    all_there =
        Permᴰ.trans
          (Permᴰ.append_left s.todo (Permᴰ.append_left rest (Permᴰ.middle ip s.sent s.dropped)))
          (Permᴰ.trans (out_of_flight ip s.todo s.flight rest (s.sent ++ s.dropped) p) v.all_there);
    kept = inl c;
  }
  work-IsPool {s} v (leave idle reason) = record {
    workers = omega (arith, v.workers, idle);
    all_there = v.all_there;
    kept = leaving v.kept reason;
  }
    where
      leaving :
          (s.cancelled ≡ true) ⊎ ((s.dropped ≡ []) × ((s.stopped ≡ 0) ⊎ (s.todo ≡ [])))
          → (s.todo ≡ []) ⊎ (s.cancelled ≡ true)
          → (s.cancelled ≡ true) ⊎ ((s.dropped ≡ []) × ((suc s.stopped ≡ 0) ⊎ (s.todo ≡ [])))
      leaving (inl c) reason = inl c
      leaving (inr (d, rest)) (inr c) = inl c
      leaving (inr (d, rest)) (inl empty) = inr (d, inr empty)

  Reachable-IsPool : {s : Pool} → Reachable n ips s → IsPool n ips s
  unfolding start
  Reachable-IsPool begin = record {
    workers = omega arith;
    all_there = Permᴰ.append-nil ips;
    kept = inr (refl, inl refl);
  }
  Reachable-IsPool (work r w) = work-IsPool (Reachable-IsPool r) w
  Reachable-IsPool (cancel {s} r) =
      let v = Reachable-IsPool r in
      record { workers = v.workers; all_there = v.all_there; kept = inl refl }

-- In every reachable state of the pool: at most as many addresses are looked up at a time as there
-- are workers; and the addresses that were not received yet, are looked up, were sent or were given
-- up are together those of the input, each as often as there.
pub Reachable-bounds :
    (n : ℕ) (ips : List Bytes) (s : Pool)
    → Reachable n ips s
    → (length s.flight ≤ n) × Permᴰ (accounted s) ips
Reachable-bounds n ips s r = let v = Reachable-IsPool r in (omega (arith, v.workers), v.all_there)

-- When all of at least one worker have returned and the context was not cancelled: the records sent
-- are one for each address of the input.
pub Reachable-sent :
    (n : ℕ) (ips : List Bytes) (s : Pool)
    → 0 < n
    → Reachable n ips s
    → s.stopped ≡ n
    → s.cancelled ≡ false
    → Permᴰ s.sent ips
Reachable-sent n ips s some_workers r done running = let v = Reachable-IsPool r in sent_all v v.kept
  where
    length_zero : (l : List Bytes) → length l ≡ 0 → l ≡ []
    length_zero [] h = refl
    length_zero (x ∷ l) h = absurd (omega (arith, h))

    sent_all :
        IsPool n ips s
        → (s.cancelled ≡ true) ⊎ ((s.dropped ≡ []) × ((s.stopped ≡ 0) ⊎ (s.todo ≡ [])))
        → Permᴰ s.sent ips
    sent_all v (inl c) = absurd (cc)
    sent_all v (inr (d, inl none_left)) = absurd (omega arith)
    sent_all v (inr (d, inr empty)) =
        let no_flight : s.flight ≡ [] = length_zero s.flight (omega (arith, v.workers)) in
        let all : accounted s ≡ s.sent = rw (empty, no_flight, d) (append-nil s.sent) in
        subst (λ l. Permᴰ l ips) all v.all_there

-- So many steps of workers, one after the other.
pub data Runs : ℕ → Pool → Pool → Type 0 where
  stay : {s : Pool} → Runs 0 s s
  step : {k : ℕ} {s s' s'' : Pool} → Work s s' → Runs k s' s'' → Runs (suc k) s s''

abbrev pub measure : Pool → ℕ
measure s = 3 * length s.todo + 2 * length s.flight + s.idle

Work-measure : {s s' : Pool} → Work s s' → measure s' < measure s
Work-measure (receive todo idle) = omega (arith, ap length todo, idle)
Work-measure (send p) = omega (arith, length-perm p)
Work-measure (give_up c p) = omega (arith, length-perm p)
Work-measure (leave idle reason) = omega (arith, idle)

Runs-measure : {k : ℕ} {s s' : Pool} → Runs k s s' → k + measure s' ≤ measure s
Runs-measure stay = omega arith
Runs-measure (step w r) = omega (arith, Work-measure w, Runs-measure r)

Runs-Reachable :
    {n : ℕ} {ips : List Bytes} {k : ℕ} {s s' : Pool}
    → Reachable n ips s
    → Runs k s s'
    → Reachable n ips s'
Runs-Reachable r stay = r
Runs-Reachable r (step w run) = Runs-Reachable (work r w) run

-- From every reachable state of the pool: the workers can make only so many steps, at most three for
-- each address not received, two for each that is looked up and one for each worker that waits; and
-- after any steps they have all returned, or one of them can make another step.
pub Reachable-ends :
    (n : ℕ) (ips : List Bytes) (s s' : Pool) (k : ℕ)
    → Reachable n ips s
    → Runs k s s'
    → (k ≤ measure s) × ((s'.stopped ≡ n) ⊎ ((s'' : Pool) × Work s' s''))
Reachable-ends n ips s s' k r run = (
  omega (arith, Runs-measure run),
  next (Reachable-IsPool (Runs-Reachable r run)) s'.idle s'.flight s'.todo refl refl refl,
)
  where
    next :
        IsPool n ips s'
        → (idle : ℕ) (flight todo : List Bytes) → s'.idle ≡ idle
        → s'.flight ≡ flight
        → s'.todo ≡ todo
        → (s'.stopped ≡ n) ⊎ ((s'' : Pool) × Work s' s'')
    next v (suc i) flight [] e f t = inr (_, leave e (inl t))
    next v (suc i) flight (ip ∷ todo) e f t = inr (_, receive t e)
    next v zero (ip ∷ flight) todo e f t =
        inr (_, send (subst (λ l. Permᴰ s'.flight l) f (Permᴰ.refl s'.flight)))
    next v zero [] todo e f t = inl (omega (arith, v.workers, e, ap length f))
