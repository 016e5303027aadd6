-- ===== src/Merge/Names/Laws.antt =====
-- internal/merge/merge.go: `hashNames` on lists of the same names.
use mathlib.Core.List.{Permᴰ}
use r_dns_crawler.Base.{◌≡◌, refl, ap, ◌∙◌, sym, List, [], ◌∷◌, Bytes, map, Bool, true, false}
use r_dns_crawler.Merge.Names.Sort.{sort_strings-perm}
use r_dns_crawler.Merge.Names.{normalise, hash_list, hash_names, offset64}

true-false : true ≡ false → ⊥
true-false h = cc

abbrev is_empty : List Bytes → Bool
is_empty [] = true
is_empty (n ∷ ns) = false

is_empty-perm : {ns ms : List Bytes} → Permᴰ ns ms → is_empty ns ≡ is_empty ms
is_empty-perm Permᴰ.nil = refl
is_empty-perm (Permᴰ.cons e p) = refl
is_empty-perm (Permᴰ.swap e f) = refl
is_empty-perm (Permᴰ.trans p q) = is_empty-perm p ∙ is_empty-perm q

-- Two lists of names whose normal forms, lower-case and without a dot at the end, are permutations
-- of each other have the same hash.
pub hash_names-perm :
    (ns ms : List Bytes)
    → Permᴰ (map normalise ns) (map normalise ms)
    → hash_names ns ≡ hash_names ms
unfolding hash_names
hash_names-perm [] [] p = refl
hash_names-perm [] (m ∷ ms) p = absurd (true-false (is_empty-perm p))
hash_names-perm (n ∷ ns) [] p = absurd (true-false (sym (is_empty-perm p)))
hash_names-perm (n ∷ ns) (m ∷ ms) p = ap (hash_list offset64) (sort_strings-perm p)
