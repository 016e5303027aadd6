-- ===== src/Base/Perms.antt =====
-- Permutations under the native length and under predicates.
use mathlib.Core.List.{Permᴰ, List}
use mathlib.Core.Path.{◌≡◌, refl, ap, subst, ◌∙◌}
use Prim.Native.Nat.{suc}
use r_dns_crawler.Base.Lists.{All, length}

module _ {ℓ} {A : Type ℓ} where
  pub All-perm {κ} : (P : A → Type κ) {es ds : List A} → Permᴰ es ds → All P es → All P ds
  All-perm P Permᴰ.nil h = h
  All-perm P (Permᴰ.cons e p) h = (subst P e h.0, All-perm P p h.1)
  All-perm P (Permᴰ.swap e f) h = (subst P f h.1.0, (subst P e h.0, h.1.1))
  All-perm P (Permᴰ.trans p q) h = All-perm P q (All-perm P p h)

  pub length-perm : {es ds : List A} → Permᴰ es ds → length es ≡ length ds
  length-perm Permᴰ.nil = refl
  length-perm (Permᴰ.cons e p) = ap suc (length-perm p)
  length-perm (Permᴰ.swap e f) = refl
  length-perm (Permᴰ.trans p q) = length-perm p ∙ length-perm q
