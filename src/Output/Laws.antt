-- ===== src/Output/Laws.antt =====
-- internal/output/output.go: what a run of the writer leaves.
use r_dns_crawler.Base.{
  ℕ, ◌+◌, ◌%◌, ◌^◌, ◌<◌, ◌≤◌, ◌≡◌, refl, sym, ap, subst, ◌∙◌, Bool, true, false, List, [], ◌∷◌,
  ◌++◌, Option, some, none, length, take_all, ltb, if◌then◌else◌, take, arith, append-nil,
  append_assoc, Bool-cases, ltb→lt, ltb→le, inl, inr,
}
use r_dns_crawler.Base.Counters.{bump_at, zeros}
use r_dns_crawler.Model.Record.{Record}
use r_dns_crawler.Model.Status.{code, has_ptr, num_status_codes}
use r_dns_crawler.Output.Samples.{
  named, take_cons, take_below, select-append, take_sampled, length-take_le,
}
use r_dns_crawler.Output.{JsonWriter, new, count_ptr, count_check, write, consume}

-- The array of counters behind the counting of the records' statuses, one by one.
abbrev pub histogram : List ℕ → List Record → List ℕ
histogram a [] = a
histogram a (r ∷ rs) = histogram (bump_at (code r.status) a) rs

-- The confirmations that were asked for, and those that said yes.
abbrev pub asked : Option Bool → ℕ
asked none = 0
asked (some m) = 1

abbrev pub said_yes : Option Bool → ℕ
said_yes none = 0
said_yes (some m) = if m then 1 else 0

abbrev pub checked : List Record → ℕ
checked [] = 0
checked (r ∷ rs) = asked r.f_cr_dns + checked rs

abbrev pub matched : List Record → ℕ
matched [] = 0
matched (r ∷ rs) = said_yes r.f_cr_dns + matched rs

-- What the two steps behind the counting of a record leave alone, and what they set.
record Moved (w : JsonWriter) (samples : List Record) (c m : ℕ) (w' : JsonWriter) : Type 0 where
  same_lines : w'.lines ≡ w.lines
  same_total : w'.total ≡ w.total
  same_codes : w'.by_code ≡ w.by_code
  its_samples : w'.samples ≡ samples
  its_check : w'.fc_checked ≡ (w.fc_checked + c) % 2 ^ 64
  its_match : w'.fc_match ≡ (w.fc_match + m) % 2 ^ 64

abbrev Small : JsonWriter → Type 0
Small w = (w.fc_checked < 2 ^ 64) × (w.fc_match < 2 ^ 64)

count_check-Moved :
    (o : Option Bool) (w : JsonWriter)
    → Small w
    → Moved w w.samples (asked o) (said_yes o) (count_check o w)
unfolding count_check
count_check-Moved none w small = record {
  same_lines = refl;
  same_total = refl;
  same_codes = refl;
  its_samples = refl;
  its_check = omega (arith, small.0);
  its_match = omega (arith, small.1);
}
count_check-Moved (some true) w small = record {
  same_lines = refl;
  same_total = refl;
  same_codes = refl;
  its_samples = refl;
  its_check = refl;
  its_match = refl;
}
count_check-Moved (some false) w small = record {
  same_lines = refl;
  same_total = refl;
  same_codes = refl;
  its_samples = refl;
  its_check = refl;
  its_match = omega (arith, small.1);
}

-- The samples behind one more record.
abbrev sampled : List Record → Record → List Record
sampled s r = take 20 (s ++ named (r ∷ []))

count_ptr-Moved :
    (r : Record) (w : JsonWriter)
    → length w.samples ≤ 20
    → Small w
    → Moved w (sampled w.samples r) 0 0 (count_ptr r w)
unfolding count_ptr
count_ptr-Moved r w few small = elim (Bool-cases (has_ptr r.status)) [
  | inl named_one ↦
      let room : (if ltb (length w.samples) 20 then w.samples ++ (r ∷ []) else w.samples)
          ≡ take 20 (w.samples ++ (r ∷ [])) =
        elim (Bool-cases (ltb (length w.samples) 20)) [
          | inl below ↦ rw below (sym (take_below 20 w.samples r (ltb→lt _ _ below)))
          | inr full ↦
              rw full (
                sym (take_cons 20 w.samples (r ∷ []) (ltb→le _ _ full) ∙ take_all 20 w.samples few))
        ] in
      rw named_one (record {
        same_lines = refl;
        same_total = refl;
        same_codes = refl;
        its_samples = room;
        its_check = omega (arith, small.0);
        its_match = omega (arith, small.1);
      })
  | inr nameless ↦ rw nameless (record {
    same_lines = refl;
    same_total = refl;
    same_codes = refl;
    its_samples = sym (ap (take 20) (append-nil w.samples) ∙ take_all 20 w.samples few);
    its_check = omega (arith, small.0);
    its_match = omega (arith, small.1);
  })
]

-- What one record changes.
record Wrote (w : JsonWriter) (r : Record) (w' : JsonWriter) : Type 0 where
  one_line : w'.lines ≡ w.lines ++ (r ∷ [])
  one_more : w'.total ≡ (w.total + 1) % 2 ^ 64
  its_code : w'.by_code ≡ bump_at (code r.status) w.by_code
  a_sample : w'.samples ≡ sampled w.samples r
  a_check : w'.fc_checked ≡ (w.fc_checked + asked r.f_cr_dns) % 2 ^ 64
  a_match : w'.fc_match ≡ (w.fc_match + said_yes r.f_cr_dns) % 2 ^ 64

write-Wrote :
    (w : JsonWriter) (r : Record) → length w.samples ≤ 20 → Small w → Wrote w r (write w r)
unfolding write
write-Wrote w r few small =
    let w0 = record w {
      lines = w.lines ++ (r ∷ []);
      total = (w.total + 1) % 2 ^ 64;
      by_code = bump_at (code r.status) w.by_code;
    } in
    let w1 = count_ptr r w0 in
    let ptr = count_ptr-Moved r w0 few small in
    let small1 : Small w1 = (omega (arith, ptr.its_check), omega (arith, ptr.its_match)) in
    let check = count_check-Moved r.f_cr_dns w1 small1 in
    record {
      one_line = check.same_lines ∙ ptr.same_lines;
      one_more = check.same_total ∙ ptr.same_total;
      its_code = check.same_codes ∙ ptr.same_codes;
      a_sample = check.its_samples ∙ ptr.its_samples;
      a_check = omega (arith, check.its_check, ptr.its_check, small.0);
      a_match = omega (arith, check.its_match, ptr.its_match, small.1);
    }

-- What a run over the records `rs` from the writer `w` leaves.
pub record Consumed (w : JsonWriter) (rs : List Record) (w' : JsonWriter) : Type 0 where
  all_lines : w'.lines ≡ w.lines ++ rs
  the_total : w'.total ≡ (w.total + length rs) % 2 ^ 64
  the_codes : w'.by_code ≡ histogram w.by_code rs
  the_samples : w'.samples ≡ take 20 (w.samples ++ named rs)
  the_checks : w'.fc_checked ≡ (w.fc_checked + checked rs) % 2 ^ 64
  the_matches : w'.fc_match ≡ (w.fc_match + matched rs) % 2 ^ 64

consume-Consumed :
    (w : JsonWriter) (rs : List Record)
    → w.total < 2 ^ 64
    → length w.samples ≤ 20
    → Small w
    → Consumed w rs (consume w rs)
unfolding consume
consume-Consumed w [] room few small = record {
  all_lines = sym (append-nil w.lines);
  the_total = omega (arith, room);
  the_codes = refl;
  the_samples = sym (ap (take 20) (append-nil w.samples) ∙ take_all 20 w.samples few);
  the_checks = omega (arith, small.0);
  the_matches = omega (arith, small.1);
}
consume-Consumed w (r ∷ rs) room few small =
    let w1 = write w r in
    let step = write-Wrote w r few small in
    let few1 : length w1.samples ≤ 20 =
      subst (λ s. length s ≤ 20) (sym step.a_sample)
        (length-take_le 20 (w.samples ++ named (r ∷ []))) in
    let rest =
      consume-Consumed w1 rs (omega (arith, step.one_more)) few1
        (omega (arith, step.a_check), omega (arith, step.a_match)) in
    record {
      all_lines =
          rest.all_lines ∙ ap (λ l. l ++ rs) step.one_line ∙ append_assoc w.lines (r ∷ []) rs;
      the_total = omega (arith, rest.the_total, step.one_more);
      the_codes = rest.the_codes ∙ ap (λ a. histogram a rs) step.its_code;
      the_samples =
          rest.the_samples
          ∙ ap (λ s. take 20 (s ++ named rs)) step.a_sample
          ∙ take_sampled 20 w.samples (named (r ∷ [])) (named rs)
          ∙ ap (λ l. take 20 (w.samples ++ l))
              (sym (select-append (λ q. has_ptr q.status) (r ∷ []) rs));
      the_checks = omega (arith, rest.the_checks, step.a_check);
      the_matches = omega (arith, rest.the_matches, step.a_match);
    }

-- A new writer that has consumed the records `rs`: the file's lines are the records in their order;
-- the total is their number; the array of counters is the zeros with each record's status code bumped,
-- one by one; the samples are the first 20 records that have names; the numbers of checked and of
-- confirmed records are the numbers of records that carry an answer, and that carry yes. All numbers
-- are 64 bits wide.
pub consume_lem :
    (rs : List Record)
    → let w = consume new rs in
      (w.lines ≡ rs)
      × (w.total ≡ length rs % 2 ^ 64)
      × (w.by_code ≡ histogram (zeros num_status_codes) rs)
      × (w.samples ≡ take 20 (named rs))
      × (w.fc_checked ≡ checked rs % 2 ^ 64)
      × (w.fc_match ≡ matched rs % 2 ^ 64)
unfolding new
consume_lem rs =
    let run = consume-Consumed new rs (omega arith) (omega arith) (omega arith, omega arith) in
    (
      run.all_lines,
      run.the_total ∙ omega arith,
      run.the_codes,
      run.the_samples,
      run.the_checks ∙ omega arith,
      run.the_matches ∙ omega arith,
    )
