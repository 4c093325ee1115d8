-- ===== src/Common/Run.antt =====
-- How a piece of code ends: with a value, by an access that C++ leaves undefined (a null or dangling
-- pointer, an index out of range), or, in the model only, by running out of fuel.
use mathlib.Core.Path.{◌≡◌, subst}
use mathlib.Core.Logic.{◌≢◌}
use mathlib.Core.Bool.{Bool, true, false}
use study_record.Common.Tests.{if◌then◌else◌}
use mathlib.Core.Option.{Option, none, some}

pub data Run {ℓ} (A : Type ℓ) : Type ℓ where
  ok : A → Run A
  fault : Run A
  out_of_fuel : Run A

infixl 5 ◌>>=◌
abbrev pub ◌>>=◌ {ℓ κ} : {A : Type ℓ} {B : Type κ} → Run A → (A → Run B) → Run B
ok a >>= f = f a
fault >>= f = fault
out_of_fuel >>= f = out_of_fuel

-- A read that faults where there is nothing to read.
abbrev pub deref {ℓ} : {A : Type ℓ} → Option A → Run A
deref none = fault
deref (some a) = ok a

-- The run ends with a value that satisfies `P`.
abbrev pub Ends {ℓ κ} : {A : Type ℓ} → (A → Type κ) → Run A → Type (ℓ ⊔ κ)
Ends {A} P r = (a : A) × (r ≡ ok a) × P a

-- The run does not exhaust its fuel, and a value that it ends with satisfies `P`.
pub data Partial {ℓ κ} {A : Type ℓ} (P : A → Type κ) : Run A → Type (ℓ ⊔ κ) where
  ended : {a : A} → P a → Partial P (ok a)
  faulted : Partial P fault

pub ok-injective {ℓ} : {A : Type ℓ} {a b : A} → ok a ≡ ok b → a ≡ b
ok-injective e = cc

module _ {ℓ κ} {A : Type ℓ} {P : A → Type κ} where
  pub Partial-bind {ℓ' κ'} :
      {B : Type ℓ'} {Q : B → Type κ'} {r : Run A} {f : A → Run B}
      → Partial P r
      → ((a : A) → P a → Partial Q (f a))
      → Partial Q (r >>= f)
  Partial-bind (ended p) k = k _ p
  Partial-bind faulted k = faulted

  pub Partial-map {κ'} :
      {Q : A → Type κ'} {r : Run A} → Partial P r → ((a : A) → P a → Q a) → Partial Q r
  Partial-map (ended p) k = ended (k _ p)
  Partial-map faulted k = faulted

  pub Partial-if :
      {x y : Run A} (b : Bool) → Partial P x → Partial P y → Partial P (if b then x else y)
  Partial-if true p q = p
  Partial-if false p q = q

  pub Partial-ends : {r : Run A} (a : A) → Partial P r → r ≡ ok a → P a
  Partial-ends a (ended p) e = subst P (ok-injective e) p
  Partial-ends a faulted e = cc

  pub Partial-ne : {r : Run A} → Partial P r → r ≢ out_of_fuel
  Partial-ne (ended p) e = cc
  Partial-ne faulted e = cc
