-- ===== src/Tests/Lookups.antt =====
-- internal/resolver and internal/merge: concrete inputs.
use mathlib.Core.List.{Permᴰ}
use r_dns_crawler.Base.Hosts.{to_lower, trim_dot, lower}
use r_dns_crawler.Merge.Names.{hash_names}
use r_dns_crawler.Merge.Names.Laws.{hash_names-perm}
use r_dns_crawler.Base.{
  ℕ, zero, suc, ◌+◌, ◌%◌, ◌^◌, ◌<◌, ◌≤◌, ◌≡◌, refl, true, false, List, [], ◌∷◌, some, none, Bytes,
  codes, length, arith, if◌then◌else◌,
}
use r_dns_crawler.Model.Record.{Record}
use r_dns_crawler.Store.Block.{Rec}
use r_dns_crawler.Resolver.{Resolver}
use r_dns_crawler.Resolver.Query.{
  ptr, Message, NetError, Reply, answered, failed, nil, transport, is_definitive, server_at, query,
}
use r_dns_crawler.Resolver.Query.Laws.{
  is_definitive_reply, is_failed, reply, query_first, query_soft, query_failed,
}
use r_dns_crawler.Resolver.Lookup.{lookup_ptr}
use r_dns_crawler.Resolver.Lookup.Laws.{Agrees, lookup_ptr_lem}
use r_dns_crawler.Merge.Shard.{Merging, merge_records}
use r_dns_crawler.Merge.Shard.Total.{tallied, written_at, occurs, merge_records_lem}

abbrev pool : List Bytes
pool = codes "1.1.1.1:53" ∷ codes "8.8.8.8:53" ∷ []

abbrev client : Resolver
client = record { servers = pool; retries = 1 }

-- The counter stands at 4 and nobody else uses it.
abbrev tickets : ℕ → ℕ
tickets k = (4 + 1 + k) % 2 ^ 64

abbrev servfail : Message
servfail = record { rcode = 2; answers = [] }

abbrev found : Message
found = record { rcode = 0; answers = ptr (codes "a.b.") ∷ [] }

abbrev lost : NetError
lost = record { deadline_exceeded = true; net_timeout = false; text = [] }

-- A soft failure, and then the answer; a soft failure, and then none; no reply at all.
abbrev second_answers : ℕ → Bytes → Reply
second_answers zero server = answered servfail
second_answers (suc k) server = answered found

abbrev second_lost : ℕ → Bytes → Reply
second_lost zero server = answered servfail
second_lost (suc k) server = failed lost

abbrev silent : ℕ → Bytes → Reply
silent k server = failed lost

first_soft : (j : ℕ) → j < 1 → is_definitive_reply (reply client tickets second_answers j) ≡ false
unfolding is_definitive
first_soft zero h = refl
first_soft (suc j) h = absurd (omega arith)

query_first_example :
    query client tickets second_answers
    ≡ record { response = some found; error = nil; server = server_at pool tickets 1; attempts = 2 }
query_first_example =
    query_first client tickets second_answers 1 found (omega arith) first_soft refl
      (unfold is_definitive in refl)

none_definitive : (j : ℕ) → j ≤ 1 → is_definitive_reply (reply client tickets second_lost j) ≡ false
unfolding is_definitive
none_definitive zero h = refl
none_definitive (suc j) h = refl

rest_failed : (j : ℕ) → 0 < j → j ≤ 1 → is_failed (reply client tickets second_lost j) ≡ true
rest_failed zero lo hi = absurd (omega arith)
rest_failed (suc j) lo hi = refl

query_soft_example : query client tickets second_lost ≡ record {
  response = some servfail;
  error = nil;
  server = server_at pool tickets 1;
  attempts = 2;
}
query_soft_example =
    query_soft client tickets second_lost 0 servfail (omega arith) none_definitive refl rest_failed

query_failed_example : query client tickets silent ≡ record {
  response = none;
  error = transport lost;
  server = server_at pool tickets 1;
  attempts = 2;
}
query_failed_example = query_failed client tickets silent lost (λ j h. refl) refl

lookup_ptr_lem_example :
    let res = lookup_ptr (λ ip. some ip) client tickets second_answers (codes "1.2.3.4") in
    Agrees res.names res.status × (res.attempts ≤ 1 + 1)
lookup_ptr_lem_example =
    lookup_ptr_lem (λ ip. some ip) client tickets second_answers (codes "1.2.3.4")

abbrev baseline : List Rec
baseline =
    record {
      ip = 16843009;
      status = 0;
      ptr = codes "a.b" ∷ [];
      fc_checked = false;
      fc_match = false;
    }
    ∷ record { ip = 16843009; status = 5; ptr = []; fc_checked = false; fc_match = false }
    ∷ []

abbrev start : Merging
start = record {
  ents = record { ip = 16843009; sf = 5; name_off = 0; name_len = 0 } ∷ [];
  seen = λ ip. false;
  merged_counts = 0 ∷ 0 ∷ 0 ∷ 0 ∷ 0 ∷ 0 ∷ 0 ∷ 0 ∷ [];
  old_total = 0;
  merged = 0;
  gained = 0;
  removed_auth = 0;
  ptr_changed = 0;
  ptr_unchanged = 0;
  grace_kept = 0;
  missing_kept = 0;
  old_dups = 0;
}

merge_records_lem_example :
    (out : List Record) × (last : Merging) × (merge_records [] 255 baseline start
      ≡ some (out, last))
    × ((ip : ℕ) → written_at ip out ≡ (if occurs ip baseline then 1 else 0))
    × (last.merged ≡ length out % 2 ^ 64)
    × (last.merged_counts ≡ tallied start.merged_counts out)
merge_records_lem_example =
    merge_records_lem [] 255 baseline start (refl, (refl, tt)) (refl, tt) (λ ip. refl) refl

hash_names-perm_example :
    hash_names (codes "A.b" ∷ codes "c.d." ∷ []) ≡ hash_names (codes "c.D" ∷ codes "a.b" ∷ [])
unfolding to_lower trim_dot lower
hash_names-perm_example =
    hash_names-perm (codes "A.b" ∷ codes "c.d." ∷ []) (codes "c.D" ∷ codes "a.b" ∷ [])
      (Permᴰ.swap refl refl)
