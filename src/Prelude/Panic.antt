-- ===== src/Prelude/Panic.antt =====
-- A computation that returns an error or panics: an index out of range, a failed assertion.
use mathlib.Core.Path.{◌≡◌, refl}
use eecs_k8s.Prelude.Tests.{if◌then◌else◌, is_some}
use mathlib.Core.Bool.{Bool, true, false}
use mathlib.Core.Option.{Option, none, some}

pub data Result {ℓ} (E : Type 0) (A : Type ℓ) : Type ℓ where
  ok : A → Result E A
  err : E → Result E A
  panic : Result E A

infixl 5 ◌>>=◌ ◌>>◌
abbrev pub ◌>>=◌ {ℓ κ} :
    {E : Type 0} {A : Type ℓ} {B : Type κ} → Result E A → (A → Result E B) → Result E B
ok a >>= f = f a
err e >>= f = err e
panic >>= f = panic

abbrev pub ◌>>◌ {ℓ} : {E : Type 0} {B : Type ℓ} → Result E (Unit {0}) → Result E B → Result E B
m >> k = m >>= λ _. k

-- `v[i]` and `expect`.
abbrev pub unwrap {ℓ} : {E : Type 0} {A : Type ℓ} → Option A → Result E A
unwrap none = panic
unwrap (some a) = ok a

abbrev pub assert : {E : Type 0} → Bool → Result E (Unit {0})
assert true = ok tt
assert false = panic

-- A postcondition that also says that the computation does not panic.
abbrev pub Safe {ℓ} : {E : Type 0} {A : Type ℓ} → (A → Type 0) → Result E A → Type 0
Safe P (ok a) = P a
Safe P (err e) = Unit
Safe P panic = ⊥

-- A postcondition of the value, if there is one.
abbrev pub Yields {ℓ} : {E : Type 0} {A : Type ℓ} → (A → Type 0) → Result E A → Type 0
Yields P (ok a) = P a
Yields P (err e) = Unit
Yields P panic = Unit

module _ {E A B : Type 0} where
  pub Safe-bind :
      (P : A → Type 0) (Q : B → Type 0) (m : Result E A) (f : A → Result E B)
      → Safe P m
      → ((a : A) → P a → Safe Q (f a))
      → Safe Q (m >>= f)
  Safe-bind P Q (ok a) f h k = k a h
  Safe-bind P Q (err e) f h k = tt
  Safe-bind P Q panic f h k = h

  pub Yields-bind :
      (P : A → Type 0) (Q : B → Type 0) (m : Result E A) (f : A → Result E B)
      → Yields P m
      → ((a : A) → P a → Yields Q (f a))
      → Yields Q (m >>= f)
  Yields-bind P Q (ok a) f h k = k a h
  Yields-bind P Q (err e) f h k = tt
  Yields-bind P Q panic f h k = tt

module _ (E : Type 0) {A : Type 0} where
  pub Safe-unwrap :
      (P : A → Type 0) (o : Option A)
      → is_some o ≡ true
      → ((a : A) → o ≡ some a → P a)
      → Safe {E = E} P (unwrap o)
  Safe-unwrap P none h k = cc
  Safe-unwrap P (some a) h k = k a refl

  pub Yields-unwrap :
      (P : A → Type 0) (o : Option A) → ((a : A) → o ≡ some a → P a) → Yields {E = E} P (unwrap o)
  Yields-unwrap P none k = tt
  Yields-unwrap P (some a) k = k a refl

module _ {E A : Type 0} where
  pub Safe-map : (P Q : A → Type 0) (m : Result E A) → ((a : A) → P a → Q a) → Safe P m → Safe Q m
  Safe-map P Q (ok a) f h = f a h
  Safe-map P Q (err e) f h = tt
  Safe-map P Q panic f h = h

  pub Safe-if :
      (P : A → Type 0) (b : Bool) (m n : Result E A)
      → (b ≡ true → Safe P m)
      → (b ≡ false → Safe P n)
      → Safe P (if b then m else n)
  Safe-if P true m n h k = h refl
  Safe-if P false m n h k = k refl

  pub Yields-if :
      (P : A → Type 0) (b : Bool) (m n : Result E A)
      → (b ≡ true → Yields P m)
      → (b ≡ false → Yields P n)
      → Yields P (if b then m else n)
  Yields-if P true m n h k = h refl
  Yields-if P false m n h k = k refl

  pub Yields-any : (m : Result E A) → Yields (λ _. Unit) m
  Yields-any (ok a) = tt
  Yields-any (err e) = tt
  Yields-any panic = tt

  pub Yields-map :
      (P Q : A → Type 0) (m : Result E A) → ((a : A) → P a → Q a) → Yields P m → Yields Q m
  Yields-map P Q (ok a) f h = f a h
  Yields-map P Q (err e) f h = tt
  Yields-map P Q panic f h = tt
