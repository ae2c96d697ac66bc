-- ===== src/Prelude/Set.antt =====
-- A `BTreeSet` of numbers as a list in order, indexed updates, and how often a number occurs.
use Prim.Native.Nat.{ℕ, zero, suc, ◌+◌, ◌<◌}
use mathlib.Core.Path.{◌≡◌, refl}
use mathlib.Core.Bool.{true}
use mathlib.Core.Logic.{◌≢◌}
use mathlib.Core.List.{List, [], ◌∷◌, ◌++◌}
use mathlib.Core.Option.{Option, none, some}
use native.Mathlib.Omega.{arith}
use eecs_k8s.Prelude.Tests.{ltb, ◌==◌, is_some, if◌then◌else◌}
use eecs_k8s.Prelude.Lists.{All, length, get_elem?}

unfoldable pub insert : ℕ → List ℕ → List ℕ
insert i [] = i ∷ []
insert i (x ∷ xs) = if ltb i x then i ∷ x ∷ xs else if i == x then x ∷ xs else x ∷ insert i xs

unfoldable pub remove : ℕ → List ℕ → List ℕ
remove i [] = []
remove i (x ∷ xs) = if i == x then xs else x ∷ remove i xs

unfoldable pub count : ℕ → List ℕ → ℕ
count i [] = 0
count i (x ∷ xs) = (if i == x then 1 else 0) + count i xs

unfoldable pub total : ℕ → List (List ℕ) → ℕ
unfolding count
total i [] = 0
total i (xs ∷ xss) = count i xs + total i xss

-- `v[j] = f(v[j])`; none is an index out of range.
unfoldable pub modify {ℓ} : {A : Type ℓ} → List A → ℕ → (A → A) → Option (List A)
modify [] j f = none
modify (x ∷ xs) zero f = some (f x ∷ xs)
modify (x ∷ xs) (suc j) f =
    let rest = modify xs j f in elim rest [ none ↦ none | some ys ↦ some (x ∷ ys) ]

pub count-append : (i : ℕ) (xs ys : List ℕ) → count i (xs ++ ys) ≡ count i xs + count i ys
unfolding count
count-append i [] ys = omega arith
count-append i (x ∷ xs) ys = omega (arith, count-append i xs ys)

-- A number above all others is new, and its insertion adds it once.
pub count-insert_above :
    (i j : ℕ) (xs : List ℕ)
    → All (λ x. x < j) xs
    → count i (insert j xs) ≡ count i xs + (if i == j then 1 else 0)
unfolding count insert
count-insert_above i j [] h = ground arith
count-insert_above i j (x ∷ xs) h = ground (arith, count-insert_above i j xs h.1)

pub insert-below : (j : ℕ) (xs : List ℕ) → All (λ x. x < j) xs → All (λ x. x < suc j) (insert j xs)
unfolding insert
insert-below j [] h = (omega arith, tt)
insert-below j (x ∷ xs) h = ground (arith, insert-below j xs h.1)

pub count-remove_self :
    (i : ℕ) (xs : List ℕ) → 0 < count i xs → count i (remove i xs) + 1 ≡ count i xs
unfolding count remove
count-remove_self i [] h = absurd (omega arith)
count-remove_self i (x ∷ xs) h = ground (arith, count-remove_self i xs)

pub count-remove_ne : (i j : ℕ) (xs : List ℕ) → i ≢ j → count i (remove j xs) ≡ count i xs
unfolding count remove
count-remove_ne i j [] h = refl
count-remove_ne i j (x ∷ xs) h = ground (arith, count-remove_ne i j xs)

pub remove-All : (P : ℕ → Type 0) (j : ℕ) (xs : List ℕ) → All P xs → All P (remove j xs)
unfolding remove
remove-All P j [] h = tt
remove-All P j (x ∷ xs) h = ground (arith, remove-All P j xs h.1)

pub insert-All : (P : ℕ → Type 0) (j : ℕ) (xs : List ℕ) → P j → All P xs → All P (insert j xs)
unfolding insert
insert-All P j [] p h = (p, tt)
insert-All P j (x ∷ xs) p h = ground (arith, insert-All P j xs p h.1)

-- Pushing a number to one list of many.
pub total-modify_push :
    (i j x : ℕ) (xss yss : List (List ℕ))
    → modify xss j (λ xs. xs ++ x ∷ []) ≡ some yss
    → total i yss ≡ total i xss + (if i == x then 1 else 0)
unfolding total modify
total-modify_push i j x [] yss h = cc
total-modify_push i zero x (xs ∷ xss) [] h = cc
total-modify_push i zero x (xs ∷ xss) (ys ∷ yss) h = ground (arith, count-append i xs (x ∷ []))
total-modify_push i (suc j) x (xs ∷ xss) [] h = ground arith
total-modify_push i (suc j) x (xs ∷ xss) (ys ∷ yss) h =
    ground (arith, total-modify_push i j x xss yss)

module _ {ℓ} {A : Type ℓ} where
  pub length-modify :
      (xs ys : List A) (j : ℕ) (f : A → A) → modify xs j f ≡ some ys → length ys ≡ length xs
  unfolding modify
  length-modify [] ys j f h = cc
  length-modify (x ∷ xs) [] zero f h = cc
  length-modify (x ∷ xs) (y ∷ ys) zero f h = ground arith
  length-modify (x ∷ xs) [] (suc j) f h = ground arith
  length-modify (x ∷ xs) (y ∷ ys) (suc j) f h = ground (arith, length-modify xs ys j f)

  pub modify_total :
      (xs : List A) (j : ℕ) (f : A → A) → j < length xs → (ys : List A) × (modify xs j f ≡ some ys)
  unfolding modify
  modify_total [] j f h = absurd (omega arith)
  modify_total (x ∷ xs) zero f h = (f x ∷ xs, refl)
  modify_total (x ∷ xs) (suc j) f h =
      let (ys, e) = modify_total xs j f (omega arith) in (x ∷ ys, rw e)

  pub get_elem?_total : (xs : List A) (i : ℕ) → i < length xs → (x : A) × (get_elem? xs i ≡ some x)
  get_elem?_total [] i h = absurd (omega arith)
  get_elem?_total (x ∷ xs) zero h = (x, refl)
  get_elem?_total (x ∷ xs) (suc i) h = get_elem?_total xs i (omega arith)

  pub get_elem?-is_some : (xs : List A) (i : ℕ) → i < length xs → is_some (get_elem? xs i) ≡ true
  get_elem?-is_some [] i h = absurd (omega arith)
  get_elem?-is_some (x ∷ xs) zero h = refl
  get_elem?-is_some (x ∷ xs) (suc i) h = get_elem?-is_some xs i (omega arith)

  pub modify-is_some :
      (xs : List A) (j : ℕ) (f : A → A) → j < length xs → is_some (modify xs j f) ≡ true
  modify-is_some xs j f h = let (ys, e) = modify_total xs j f h in rw e

  pub get_elem?-lt : (xs : List A) (i : ℕ) (x : A) → get_elem? xs i ≡ some x → i < length xs
  get_elem?-lt [] i x h = cc
  get_elem?-lt (y ∷ ys) zero x h = omega arith
  get_elem?-lt (y ∷ ys) (suc i) x h = omega (arith, get_elem?-lt ys i x h)
