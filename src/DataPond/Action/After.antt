-- ===== src/DataPond/Action/After.antt =====
-- What holds after an action: of its value and the state, or of the state that an error leaves.
use eecs_k8s.Prelude.{◌≡◌, refl}
use eecs_k8s.Prelude.Panic.{Result, ok, err, panic}
use eecs_k8s.DataPond.Types.{Status}
use eecs_k8s.DataPond.Action.{Action, continue_with}

pub data After {S A : Type 0} (Q : A → S → Type 0) (P : S → Type 0)
    : Result Status A × S → Type 0 where
  returns : {a : A} {s : S} → Q a s → After Q P (ok a, s)
  fails : {e : Status} {s : S} → P s → After Q P (err e, s)
  panics : {s : S} → P s → After Q P (panic, s)

-- The same of the state however the action ends.
abbrev pub Always : {S A : Type 0} → (S → Type 0) → Result Status A × S → Type 0
Always P r = After (λ _. P) P r

module _ {S A : Type 0} {Q : A → S → Type 0} {P : S → Type 0} where
  -- One step of a do block: what its first action establishes, the rest may use.
  pub After-bind :
      {B : Type 0} {R : B → S → Type 0} (f : A → Action S B) {r : Result Status A} {s : S}
      → After Q P (r, s)
      → ((a : A) (t : S) → Q a t → After R P (f a t))
      → After R P (continue_with r s f)
  After-bind f (returns h) k = k _ _ h
  After-bind f (fails h) k = fails h
  After-bind f (panics h) k = panics h

  -- `lift` leaves the state.
  pub After-lift :
      (r : Result Status A) (s : S) → ((a : A) → r ≡ ok a → Q a s) → P s → After Q P (r, s)
  After-lift (ok a) s h k = returns (h a refl)
  After-lift (err e) s h k = fails k
  After-lift panic s h k = panics k

pub After-final : {S A : Type 0} {P : S → Type 0} {r : Result Status A × S} → Always P r → P r.1
After-final (returns h) = h
After-final (fails h) = h
After-final (panics h) = h

pub After-weaken :
    {S A : Type 0} {Q : A → S → Type 0} {P R : S → Type 0} {r : Result Status A × S}
    → After Q P r
    → ((s : S) → P s → R s)
    → After Q R r
After-weaken (returns h) k = returns h
After-weaken (fails h) k = fails (k _ h)
After-weaken (panics h) k = panics (k _ h)

-- What follows of each outcome.
pub After-all :
    {S A : Type 0} {Q : A → S → Type 0} {P R : S → Type 0} {r : Result Status A × S}
    → After Q P r
    → ((a : A) (s : S) → Q a s → R s)
    → ((s : S) → P s → R s)
    → Always R r
After-all (returns h) k l = returns (k _ _ h)
After-all (fails h) k l = fails (l _ h)
After-all (panics h) k l = panics (l _ h)

-- An action that keeps what holds of the state, and the rest of the block.
module _ {S : Type 0} (P : S → Type 0) where
  pub Always-bind :
      {A B : Type 0} {R : B → S → Type 0} (f : A → Action S B) (r : Result Status A × S)
      → Always P r
      → ((a : A) (t : S) → P t → After R P (f a t))
      → After R P (continue_with r.0 r.1 f)
  Always-bind f r (returns h) k = k _ _ h
  Always-bind f r (fails h) k = fails h
  Always-bind f r (panics h) k = panics h

  pub lift-bind :
      {A B : Type 0} {R : B → S → Type 0} (f : A → Action S B) (r : Result Status A) (s : S)
      → P s
      → ((a : A) (t : S) → P t → After R P (f a t))
      → After R P (continue_with r s f)
  lift-bind f (ok a) s h k = k a s h
  lift-bind f (err e) s h k = fails h
  lift-bind f panic s h k = panics h
