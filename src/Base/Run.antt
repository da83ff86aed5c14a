-- ===== src/Base/Run.antt =====
-- Runs of C code that may end in a fault.
use mathlib.Core.Bool.{Bool, true, false}
use cso18_labs.Base.Tests.{if◌then◌else◌}

-- `asserted` is a failed `assert`, `exited` a call of `exit(1)`, `bad_access` a load or store
-- outside the heap's storage or an array's bounds, `uninitialised` a read of memory that nothing
-- has written, `division_by_zero` a `%` by 0, `out_of_fuel` a loop that did not end within its bound.
pub data Fault : Type 0 where
  asserted exited bad_access uninitialised division_by_zero out_of_fuel : Fault

pub data Run {ℓ} (A : Type ℓ) : Type ℓ where
  ok : A → Run A
  fault : Fault → Run A

infixl 5 ◌>>=◌ ◌>>◌
abbrev pub ◌>>=◌ {ℓ κ} : {A : Type ℓ} {B : Type κ} → Run A → (A → Run B) → Run B
ok a >>= f = f a
fault e >>= f = fault e

abbrev pub ◌>>◌ {ℓ} : {B : Type ℓ} → Run (Unit {0}) → Run B → Run B
m >> k = m >>= λ _. k

abbrev pub check : Bool → Fault → Run (Unit {0})
check true e = ok tt
check false e = fault e

-- `assert(b)`
abbrev pub assert : Bool → Run (Unit {0})
assert b = check b asserted

-- What holds of the result, if there is one.
pub data Holds {A : Type 0} (P : A → Type 0) : Run A → Type 0 where
  returns : {a : A} → P a → Holds P (ok a)
  faults : {e : Fault} → Holds P (fault e)

module _ {A : Type 0} where
  pub Holds_ok : {P : A → Type 0} {a : A} → Holds P (ok a) → P a
  Holds_ok (returns h) = h

  pub if-Holds :
      {P : A → Type 0} (b : Bool) {x y : Run A}
      → Holds P x
      → Holds P y
      → Holds P (if b then x else y)
  if-Holds true h k = h
  if-Holds false h k = k

module _ {A B : Type 0} where
  pub Holds-bind :
      {P : A → Type 0} {Q : B → Type 0} {m : Run A} {k : A → Run B}
      → Holds P m
      → ((a : A) → P a → Holds Q (k a))
      → Holds Q (m >>= k)
  Holds-bind (returns {a = a} h) next = next a h
  Holds-bind faults next = faults

  -- The same where nothing is known of the first result.
  pub Holds-any :
      {Q : B → Type 0} (m : Run A) {k : A → Run B} → ((a : A) → Holds Q (k a)) → Holds Q (m >>= k)
  Holds-any (ok a) next = next a
  Holds-any (fault e) next = faults
