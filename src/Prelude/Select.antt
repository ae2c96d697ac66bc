-- ===== src/Prelude/Select.antt =====
-- Searching and counting in a list by a Boolean test.
use Prim.Native.Nat.{ℕ, ◌+◌, ◌≤◌}
use mathlib.Core.Path.{◌≡◌}
use mathlib.Core.Bool.{Bool, true, false, ◌&&◌, ◌||◌}
use mathlib.Core.List.{List, [], ◌∷◌, ◌++◌}
use mathlib.Core.Option.{Option, none, some}
use native.Mathlib.Omega.{arith}
use eecs_k8s.Prelude.Tests.{if◌then◌else◌}
use eecs_k8s.Prelude.Lists.{All, length}

module _ {ℓ} {A : Type ℓ} (p : A → Bool) where
  unfoldable pub filter : List A → List A
  filter [] = []
  filter (x ∷ xs) = if p x then x ∷ filter xs else filter xs

  unfoldable pub any : List A → Bool
  any [] = false
  any (x ∷ xs) = p x || any xs

  unfoldable pub all : List A → Bool
  all [] = true
  all (x ∷ xs) = p x && all xs

  unfoldable pub count_if : List A → ℕ
  count_if [] = 0
  count_if (x ∷ xs) = (if p x then 1 else 0) + count_if xs

  unfoldable pub find : List A → Option A
  find [] = none
  find (x ∷ xs) = if p x then some x else find xs

  pub count_if-le-length : (xs : List A) → count_if xs ≤ length xs
  unfolding count_if
  count_if-le-length [] = omega arith
  count_if-le-length (x ∷ xs) = ground (arith, count_if-le-length xs)

  -- All elements pass if as many pass as there are.
  pub count_if-All : (xs : List A) → count_if xs ≡ length xs → All (λ x. p x ≡ true) xs
  unfolding count_if
  count_if-All [] h = tt
  count_if-All (x ∷ xs) h = ground (arith, count_if-le-length xs, count_if-All xs)

  pub find-holds : (xs : List A) (x : A) → find xs ≡ some x → p x ≡ true
  unfolding find
  find-holds [] x h = cc
  find-holds (y ∷ ys) x h = ground (arith, find-holds ys x)

  pub filter-All : (xs : List A) → All (λ x. p x ≡ true) (filter xs)
  unfolding filter
  filter-All [] = tt
  filter-All (x ∷ xs) = ground (arith, filter-All xs)

  pub length-filter-le : (xs : List A) → length (filter xs) ≤ length xs
  unfolding filter
  length-filter-le [] = omega arith
  length-filter-le (x ∷ xs) = ground (arith, length-filter-le xs)

  pub count_if-append : (xs ys : List A) → count_if (xs ++ ys) ≡ count_if xs + count_if ys
  unfolding count_if
  count_if-append [] ys = omega arith
  count_if-append (x ∷ xs) ys = omega (arith, count_if-append xs ys)
