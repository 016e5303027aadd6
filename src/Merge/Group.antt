-- ===== src/Merge/Group.antt =====
-- internal/merge/merge.go, `group`: thousands separated by commas.
use r_dns_crawler.Base.{ℕ, ◌%◌, [], ◌∷◌, ◌++◌, Bytes, length, take, drop, leb, if◌then◌else◌}
use r_dns_crawler.Base.Decimal.{decimal}

-- The loop from `i` on: a comma in front of every three digits but at the start of the text.
unfoldable pub group_from : Bytes → Bytes → Bytes
group_from out [] = out
group_from [] (a ∷ b ∷ c ∷ s) = group_from (a ∷ b ∷ c ∷ []) s
group_from (o ∷ out) (a ∷ b ∷ c ∷ s) = group_from ((o ∷ out) ++ (b',' ∷ a ∷ b ∷ c ∷ [])) s
group_from out s = out ++ s

unfoldable pub group : ℕ → Bytes
unfolding group_from
group n =
    let s = decimal n in
    if leb (length s) 3 then s else group_from (take (length s % 3) s) (drop (length s % 3) s)
