-- ===== src/Base/Results.antt =====
-- The outcome of a reader. `stuck` has no counterpart in the program: a loop ran out of fuel.
use mathlib.Core.Path.{◌≡◌, refl, subst}
use mathlib.Core.Bool.{Bool, true, false}
use launch_as.Base.Tests.{if◌then◌else◌}
use mathlib.Core.Option.{Option, none, some}

pub data Outcome {ℓ} (A : Type ℓ) : Type ℓ where
  ok : A → Outcome A
  rejected stuck : Outcome A

infixl 5 ◌>>=◌ ◌>>◌
abbrev pub ◌>>=◌ {ℓ κ} : {A : Type ℓ} {B : Type κ} → Outcome A → (A → Outcome B) → Outcome B
ok a >>= f = f a
rejected >>= f = rejected
stuck >>= f = stuck

abbrev pub ◌>>◌ {ℓ} : {B : Type ℓ} → Outcome (Unit {0}) → Outcome B → Outcome B
m >> k = m >>= λ _. k

-- `if (!test) return false;`
abbrev pub guard : Bool → Outcome (Unit {0})
guard true = ok tt
guard false = rejected

abbrev pub or_reject {ℓ} : {A : Type ℓ} → Option A → Outcome A
or_reject none = rejected
or_reject (some a) = ok a

-- `P` holds of the value, if there is one.
pub data Ensures {ℓ κ} {A : Type ℓ} (P : A → Type κ) : Outcome A → Type (ℓ ⊔ κ) where
  holds : {a : A} → P a → Ensures P (ok a)
  no_value : Ensures P rejected
  no_end : Ensures P stuck

module _ {ℓ κ} {A : Type ℓ} {P : A → Type κ} where
  pub Ensures-ok : {r : Outcome A} {a : A} → Ensures P r → r ≡ ok a → P a
  Ensures-ok (holds h) e = subst P (cc) h
  Ensures-ok no_value e = cc
  Ensures-ok no_end e = cc

  pub Ensures-if :
      (b : Bool) {x y : Outcome A}
      → (b ≡ true → Ensures P x)
      → (b ≡ false → Ensures P y)
      → Ensures P (if b then x else y)
  Ensures-if true hx hy = hx refl
  Ensures-if false hx hy = hy refl

  pub Ensures-guard :
      (b : Bool) (f : Unit {0} → Outcome A)
      → (b ≡ true → Ensures P (f tt))
      → Ensures P (guard b >>= f)
  Ensures-guard true f k = k refl
  Ensures-guard false f k = no_value

  pub Ensures-bind {ℓ' κ'} :
      {B : Type ℓ'} (Q : B → Type κ') (r : Outcome B) (f : B → Outcome A)
      → Ensures Q r
      → ((b : B) → r ≡ ok b → Q b → Ensures P (f b))
      → Ensures P (r >>= f)
  Ensures-bind Q (ok b) f (holds h) k = k b refl h
  Ensures-bind Q rejected f h k = no_value
  Ensures-bind Q stuck f h k = no_end

  -- Where nothing is known of the value.
  pub Ensures-any {ℓ'} :
      {B : Type ℓ'} (r : Outcome B) (f : B → Outcome A)
      → ((b : B) → r ≡ ok b → Ensures P (f b))
      → Ensures P (r >>= f)
  Ensures-any (ok b) f k = k b refl
  Ensures-any rejected f k = no_value
  Ensures-any stuck f k = no_end

  pub Ensures-or_reject {ℓ'} :
      {B : Type ℓ'} (o : Option B) (f : B → Outcome A)
      → ((b : B) → o ≡ some b → Ensures P (f b))
      → Ensures P (or_reject o >>= f)
  Ensures-or_reject none f k = no_value
  Ensures-or_reject (some b) f k = k b refl

module _ {ℓ} {B : Type ℓ} where
  pub >>=-ne-stuck {κ} :
      {A : Type κ} (m : Outcome A) (f : A → Outcome B)
      → (m ≡ stuck → ⊥)
      → ((a : A) → f a ≡ stuck → ⊥)
      → (m >>= f) ≡ stuck
      → ⊥
  >>=-ne-stuck (ok a) f h k = k a
  >>=-ne-stuck rejected f h k = λ e. cc
  >>=-ne-stuck stuck f h k = λ e. h refl

  pub guard-ne-stuck :
      (b : Bool) (f : Unit {0} → Outcome B) → (f tt ≡ stuck → ⊥) → (guard b >>= f) ≡ stuck → ⊥
  guard-ne-stuck true f k = k
  guard-ne-stuck false f k = λ e. cc

  pub if-ne-stuck :
      (b : Bool) {x y : Outcome B}
      → (x ≡ stuck → ⊥)
      → (y ≡ stuck → ⊥)
      → (if b then x else y) ≡ stuck
      → ⊥
  if-ne-stuck true h k = h
  if-ne-stuck false h k = k
