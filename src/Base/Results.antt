-- ===== src/Base/Results.antt =====
-- Go's (value, error) pair: a value or an error, with the bind of a `do` block.
use mathlib.Core.Path.{◌≡◌, refl, subst}
use mathlib.Core.Logic.{◌⊎◌, inl, inr}

pub data Result {ℓ κ} (E : Type ℓ) (A : Type κ) : Type (ℓ ⊔ κ) where
  ok : A → Result E A
  err : E → Result E A

infixl 5 ◌>>=◌
abbrev pub ◌>>=◌ {ℓ κ ι} :
    {E : Type ℓ} {A : Type κ} {B : Type ι} → Result E A → (A → Result E B) → Result E B
ok a >>= f = f a
err e >>= f = err e

pub ok_injective {ℓ κ} :
    {E : Type ℓ} {A : Type κ} {a b : A} → ◌≡◌ {A = Result E A} (ok a) (ok b) → a ≡ b
ok_injective h = cc

pub err_injective {ℓ κ} :
    {E : Type ℓ} {A : Type κ} {a b : E} → ◌≡◌ {A = Result E A} (err a) (err b) → a ≡ b
err_injective h = cc

pub Result-cases {ℓ κ} :
    {E : Type ℓ} {A : Type κ} (r : Result E A) → ((a : A) × (r ≡ ok a)) ⊎ ((e : E) × (r ≡ err e))
Result-cases (ok a) = inl (a, refl)
Result-cases (err e) = inr (e, refl)

-- A result whose value meets `P`, or whose error meets `Q`.
pub data Ensures {E A : Type 0} (P : A → Type 0) (Q : E → Type 0) : Result E A → Type 0 where
  value : {a : A} → P a → Ensures P Q (ok a)
  error : {e : E} → Q e → Ensures P Q (err e)

module _ {E A : Type 0} {P : A → Type 0} {Q : E → Type 0} where
  pub Ensures-bind :
      {B : Type 0} {P' : B → Type 0} {m : Result E B} {f : B → Result E A}
      → Ensures P' Q m
      → ((b : B) → P' b → Ensures P Q (f b))
      → Ensures P Q (m >>= f)
  Ensures-bind (value {a = b} p) k = k b p
  Ensures-bind (error q) k = error q

  pub Ensures_ok : {r : Result E A} (a : A) → Ensures P Q r → r ≡ ok a → P a
  Ensures_ok a (value {a = b} p) h = subst P (ok_injective h) p
  Ensures_ok a (error q) h = absurd (cc)

  pub Ensures_err : {r : Result E A} (e : E) → Ensures P Q r → r ≡ err e → Q e
  Ensures_err e (value p) h = absurd (cc)
  Ensures_err e (error {e = x} q) h = subst Q (err_injective h) q

  pub Ensures-mono :
      {P' : A → Type 0} {r : Result E A} → ((a : A) → P' a → P a) → Ensures P' Q r → Ensures P Q r
  Ensures-mono f (value {a} p) = value (f a p)
  Ensures-mono f (error q) = error q
