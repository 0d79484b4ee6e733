-- ===== src/Sh/Ensures.antt =====
-- Postconditions of the parse functions of xv6-public/sh.c.
use modificacion_sistema_ope.Base.{◌≡◌, ◌≢◌, refl, subst, Bool, true, false, if◌then◌else◌}
use modificacion_sistema_ope.Sh.Defs.{Message, Parsed, ok, panic, out_of_fuel, bind}

-- The call kept within its fuel, and `P` holds of what it returns, if it does.
pub data Ensures {ℓ κ} {A : Type ℓ} (P : A → Type κ) : Parsed A → Type (ℓ ⊔ κ) where
  returned : {a : A} → P a → Ensures P (ok a)
  panicked : {e : Message} → Ensures P (panic e)

module _ {ℓ κ} {A : Type ℓ} {P : A → Type κ} where
  pub Ensures-ok : {r : Parsed A} {a : A} → Ensures P r → r ≡ ok a → P a
  Ensures-ok (returned h) e = subst P (cc) h
  Ensures-ok panicked e = absurd (cc)

  pub Ensures-fuel : {r : Parsed A} → Ensures P r → r ≢ out_of_fuel
  Ensures-fuel (returned h) e = cc
  Ensures-fuel panicked e = cc

  pub Ensures-if :
      (b : Bool) {x y : Parsed A}
      → (b ≡ true → Ensures P x)
      → (b ≡ false → Ensures P y)
      → Ensures P (if b then x else y)
  Ensures-if true hx hy = hx refl
  Ensures-if false hx hy = hy refl

  pub Ensures-bind {ℓ' κ'} :
      {B : Type ℓ'} {Q : B → Type κ'} {r : Parsed A} {f : A → Parsed B}
      → Ensures P r
      → ((a : A) → P a → Ensures Q (f a))
      → Ensures Q (bind r f)
  Ensures-bind (returned {a} h) k = k a h
  Ensures-bind panicked k = panicked
