-- ===== src/DataPond/Action.antt =====
-- A handler of the controller: it reads and writes the state of the whole system, and ends with a
-- value or with a status. What was written before an error stays.
use eecs_k8s.Prelude.Panic.{Result, ok, err, panic}
pub mod After
use eecs_k8s.DataPond.Types.{Status}

abbrev pub Action : Type 0 → Type 0 → Type 0
Action S A = S → Result Status A × S

abbrev pub continue_with :
    {S A B : Type 0} → Result Status A → S → (A → Action S B) → Result Status B × S
continue_with (ok a) s f = f a s
continue_with (err e) s f = (err e, s)
continue_with panic s f = (panic, s)

infixl 5 ◌>>=◌ ◌>>◌
abbrev pub ◌>>=◌ : {S A B : Type 0} → Action S A → (A → Action S B) → Action S B
(m >>= f) s = continue_with (m s).0 (m s).1 f

abbrev pub ◌>>◌ : {S B : Type 0} → Action S (Unit {0}) → Action S B → Action S B
m >> k = m >>= λ _. k

abbrev pub pure : {S A : Type 0} → A → Action S A
pure a s = (ok a, s)

abbrev pub lift : {S A : Type 0} → Result Status A → Action S A
lift r s = (r, s)

abbrev pub gets : {S A : Type 0} → (S → A) → Action S A
gets f s = (ok (f s), s)

abbrev pub modify : {S : Type 0} → (S → S) → Action S Unit
modify f s = (ok tt, f s)
