-- ===== src/Prelude/Fallible.antt =====
-- The result of a function that returns a value or an error.
use mathlib.Core.Path.{◌≡◌, refl}
use mathlib.Core.Logic.{◌⊎◌, inl, inr}

pub data Fallible (E A : Type 0) : Type 0 where
  err : E → Fallible E A
  ok : A → Fallible E A

module _ {E A : Type 0} where
  pub Fallible-cases : (x : Fallible E A) → ((e : E) × (x ≡ err e)) ⊎ ((a : A) × (x ≡ ok a))
  Fallible-cases (err e) = inl (e, refl)
  Fallible-cases (ok a) = inr (a, refl)

  pub err-ne-ok : {e : E} {a : A} → ¬ (◌≡◌ {A = Fallible E A} (err e) (ok a))
  err-ne-ok h = cc

  pub ok_injective : {a b : A} → ◌≡◌ {A = Fallible E A} (ok a) (ok b) → a ≡ b
  ok_injective h = cc

module _ {E A B : Type 0} where
  -- `if err != nil { return err }` behind a call.
  infixl 10 ◌>>=◌
  abbrev pub ◌>>=◌ : Fallible E A → (A → Fallible E B) → Fallible E B
  err e >>= f = err e
  ok a >>= f = f a
