-- ===== src/Common/Errors.antt =====
-- How a call of the C++ code ends: with a value, or with the process down.
use mathlib.Core.Path.{◌≡◌, refl, ap}
use mathlib.Core.Bool.{Bool, true, false}

-- A failed `assert` or `DCHECK`, a `LOG(FATAL)` or `CHECK`, `std::length_error` thrown by
-- `vector::resize`, a null pointer or a dangling iterator dereferenced.
pub data Fault : Type 0 where
  assertion fatal length_error bad_pointer : Fault

pub data Outcome {ℓ} (A : Type ℓ) : Type ℓ where
  ok : A → Outcome A
  fault : Fault → Outcome A

module _ {A : Type 0} where
  value : A → Outcome A → A
  value d (ok a) = a
  value d (fault e) = d

  pub ok-injective : (a b : A) → ok a ≡ ok b → a ≡ b
  unfolding value
  ok-injective a b e = ap (value a) e

infixl 5 ◌>>=◌ ◌>>◌
abbrev pub ◌>>=◌ {ℓ κ} : {A : Type ℓ} {B : Type κ} → Outcome A → (A → Outcome B) → Outcome B
ok a >>= f = f a
fault e >>= f = fault e

abbrev pub ◌>>◌ {ℓ} : {B : Type ℓ} → Outcome (Unit {0}) → Outcome B → Outcome B
m >> k = m >>= λ _. k

abbrev pub require : Bool → Fault → Outcome (Unit {0})
require true e = ok tt
require false e = fault e

-- The call returns a value of which `P` holds, or a system call failed and the process is down. It
-- trips no assertion, throws nothing and follows no bad pointer.
abbrev pub Ends {ℓ} : {A : Type ℓ} → (A → Type 0) → Outcome A → Type 0
Ends P (ok a) = P a
Ends P (fault fatal) = Unit
Ends P (fault assertion) = ⊥
Ends P (fault length_error) = ⊥
Ends P (fault bad_pointer) = ⊥

pub Ends-bind {ℓ κ} :
    {A : Type ℓ} {B : Type κ} (P : A → Type 0) (Q : B → Type 0) (m : Outcome A) (f : A → Outcome B)
    → Ends P m
    → ((a : A) → P a → Ends Q (f a))
    → Ends Q (m >>= f)
Ends-bind P Q (ok a) f p k = k a p
Ends-bind P Q (fault fatal) f p k = tt
Ends-bind P Q (fault assertion) f p k = absurd p
Ends-bind P Q (fault length_error) f p k = absurd p
Ends-bind P Q (fault bad_pointer) f p k = absurd p

pub Ends-map {ℓ} :
    {A : Type ℓ} (P Q : A → Type 0) (m : Outcome A) → ((a : A) → P a → Q a) → Ends P m → Ends Q m
Ends-map P Q (ok a) f p = f a p
Ends-map P Q (fault fatal) f p = tt
Ends-map P Q (fault assertion) f p = p
Ends-map P Q (fault length_error) f p = p
Ends-map P Q (fault bad_pointer) f p = p

-- The equation of the value returned.
pub Ends-self : {A : Type 0} (m : Outcome A) → Ends (λ a. Unit {0}) m → Ends (λ a. m ≡ ok a) m
Ends-self (ok a) p = refl
Ends-self (fault fatal) p = tt
Ends-self (fault assertion) p = p
Ends-self (fault length_error) p = p
Ends-self (fault bad_pointer) p = p

-- What holds of the value, if the call returns one.
abbrev pub IfOk {ℓ} : {A : Type ℓ} → (A → Type 0) → Outcome A → Type 0
IfOk P (ok a) = P a
IfOk P (fault f) = Unit

pub IfOk-bind {ℓ κ} :
    {A : Type ℓ} {B : Type κ} (Q : B → Type 0) (m : Outcome A) (f : A → Outcome B)
    → ((a : A) → IfOk Q (f a))
    → IfOk Q (m >>= f)
IfOk-bind Q (ok a) f k = k a
IfOk-bind Q (fault e) f k = tt

pub IfOk-then {ℓ κ} :
    {A : Type ℓ} {B : Type κ} (P : A → Type 0) (Q : B → Type 0) (m : Outcome A) (f : A → Outcome B)
    → IfOk P m
    → ((a : A) → P a → IfOk Q (f a))
    → IfOk Q (m >>= f)
IfOk-then P Q (ok a) f p k = k a p
IfOk-then P Q (fault e) f p k = tt

pub IfOk-require {ℓ} :
    {A : Type ℓ} (Q : A → Type 0) (b : Bool) (e : Fault) (m : Outcome A)
    → (b ≡ true → IfOk Q m)
    → IfOk Q (require b e >> m)
IfOk-require Q true e m k = k refl
IfOk-require Q false e m k = tt

-- The value satisfies `P`, or the process is down on purpose: no bad pointer is followed and
-- nothing is thrown.
abbrev pub Safe {ℓ} : {A : Type ℓ} → (A → Type 0) → Outcome A → Type 0
Safe P (ok a) = P a
Safe P (fault assertion) = Unit
Safe P (fault fatal) = Unit
Safe P (fault length_error) = ⊥
Safe P (fault bad_pointer) = ⊥

pub Safe-bind {ℓ κ} :
    {A : Type ℓ} {B : Type κ} (P : A → Type 0) (Q : B → Type 0) (m : Outcome A) (f : A → Outcome B)
    → Safe P m
    → ((a : A) → P a → Safe Q (f a))
    → Safe Q (m >>= f)
Safe-bind P Q (ok a) f p k = k a p
Safe-bind P Q (fault assertion) f p k = tt
Safe-bind P Q (fault fatal) f p k = tt
Safe-bind P Q (fault length_error) f p k = absurd p
Safe-bind P Q (fault bad_pointer) f p k = absurd p

pub Ends-Safe {ℓ} : {A : Type ℓ} (P : A → Type 0) (m : Outcome A) → Ends P m → Safe P m
Ends-Safe P (ok a) p = p
Ends-Safe P (fault fatal) p = tt
Ends-Safe P (fault assertion) p = tt
Ends-Safe P (fault length_error) p = absurd p
Ends-Safe P (fault bad_pointer) p = absurd p

pub Safe-map {ℓ} :
    {A : Type ℓ} (P Q : A → Type 0) (m : Outcome A) → ((a : A) → P a → Q a) → Safe P m → Safe Q m
Safe-map P Q (ok a) f p = f a p
Safe-map P Q (fault assertion) f p = tt
Safe-map P Q (fault fatal) f p = tt
Safe-map P Q (fault length_error) f p = absurd p
Safe-map P Q (fault bad_pointer) f p = absurd p

pub require-Safe : (b : Bool) → Safe (λ u. Unit {0}) (require b assertion)
require-Safe true = tt
require-Safe false = tt
