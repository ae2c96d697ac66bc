-- ===== src/Prelude/Flow.antt =====
-- A handler that calls other services: it ends with a value, with an early `return` or with an
-- error (`?`), and leaves the list of the calls that succeeded, in order.
use mathlib.Core.Path.{◌≡◌, refl}
use mathlib.Core.Option.{Option, none, some}
use mathlib.Core.List.{List, [], ◌∷◌, ◌++◌}
use eecs_k8s.Prelude.Lists.{All, All-append}
use eecs_k8s.Prelude.Tests.{if◌then◌else◌}
use mathlib.Core.Bool.{Bool, true, false}

pub data Outcome (E R A : Type 0) : Type 0 where
  ok : A → Outcome E R A
  returned : R → Outcome E R A
  failed : E → Outcome E R A

-- `Ev`: the calls, `E`: the errors, `R`: what the handler returns.
abbrev pub Flow : Type 0 → Type 0 → Type 0 → Type 0 → Type 0
Flow Ev E R A = Outcome E R A × List Ev

abbrev pub continue_with :
    {Ev E R A B : Type 0} → Outcome E R A → List Ev → (A → Flow Ev E R B) → Flow Ev E R B
continue_with (ok a) t f = ((f a).0, t ++ (f a).1)
continue_with (returned r) t f = (returned r, t)
continue_with (failed e) t f = (failed e, t)

infixl 5 ◌>>=◌ ◌>>◌
abbrev pub ◌>>=◌ : {Ev E R A B : Type 0} → Flow Ev E R A → (A → Flow Ev E R B) → Flow Ev E R B
m >>= f = continue_with m.0 m.1 f

abbrev pub ◌>>◌ : {Ev E R B : Type 0} → Flow Ev E R (Unit {0}) → Flow Ev E R B → Flow Ev E R B
m >> k = m >>= λ _. k

abbrev pub pure : {Ev E R A : Type 0} → A → Flow Ev E R A
pure a = (ok a, [])

abbrev pub return : {Ev E R A : Type 0} → R → Flow Ev E R A
return r = (returned r, [])

abbrev pub fail : {Ev E R A : Type 0} → E → Flow Ev E R A
fail e = (failed e, [])

-- A call with its event and its error, if the service refuses it.
abbrev pub call : {Ev E R : Type 0} → Ev → Option E → Flow Ev E R (Unit {0})
call ev none = (ok tt, ev ∷ [])
call ev (some e) = (failed e, [])

-- What holds of every call of the parts holds of every call of the whole.
module _ {Ev E R A B : Type 0} (P : Ev → Type 0) where
  pub All-bind :
      (m : Flow Ev E R A) (f : A → Flow Ev E R B)
      → All P m.1
      → ((a : A) → m.0 ≡ ok a → All P (f a).1)
      → All P (m >>= f).1
  All-bind (ok a, t) f h k = All-append P t (f a).1 h (k a refl)
  All-bind (returned r, t) f h k = h
  All-bind (failed e, t) f h k = h

module _ {Ev E R A : Type 0} (P : Ev → Type 0) where
  pub All-if :
      (b : Bool) (m n : Flow Ev E R A)
      → (b ≡ true → All P m.1)
      → (b ≡ false → All P n.1)
      → All P (if b then m else n).1
  All-if true m n h k = h refl
  All-if false m n h k = k refl
