-- ===== src/Prelude/Sort.antt =====
-- A stable insertion sort, as `sorted_by_key` of the iterators, and the order on keys.
use Prim.Native.Nat.{ℕ, suc, ◌+◌}
use mathlib.Core.Path.{◌≡◌, refl}
use mathlib.Core.Logic.{inl, inr}
use mathlib.Core.Bool.{Bool, true, false}
use mathlib.Core.List.{List, [], ◌∷◌}
use mathlib.Core.Option.{Option, none, some}
use native.Mathlib.Omega.{arith}
use eecs_k8s.Prelude.Tests.{ltb, ◌==◌, Bool-cases, if◌then◌else◌}
use eecs_k8s.Prelude.Lists.{All, All-map, length}
use eecs_k8s.Prelude.Select.{count_if}

abbrev pub IsSorted {ℓ} : {A : Type ℓ} → (A → A → Bool) → List A → Type 0
IsSorted le [] = Unit
IsSorted le (x ∷ xs) = All (λ y. le x y ≡ true) xs × IsSorted le xs

module _ {ℓ} {A : Type ℓ} (le : A → A → Bool) where
  unfoldable pub insert_sorted : A → List A → List A
  insert_sorted x [] = x ∷ []
  insert_sorted x (y ∷ ys) = if le x y then x ∷ y ∷ ys else y ∷ insert_sorted x ys

  unfoldable pub sort : List A → List A
  unfolding insert_sorted
  sort [] = []
  sort (x ∷ xs) = insert_sorted x (sort xs)

  insert_sorted-All :
      (P : A → Type 0) (x : A) (ys : List A) → P x → All P ys → All P (insert_sorted x ys)
  unfolding insert_sorted
  insert_sorted-All P x [] px h = (px, tt)
  insert_sorted-All P x (y ∷ ys) px h = ground (arith, insert_sorted-All P x ys px h.1)

  pub sort-All : (P : A → Type 0) (xs : List A) → All P xs → All P (sort xs)
  unfolding sort
  sort-All P [] h = tt
  sort-All P (x ∷ xs) h = insert_sorted-All P x (sort xs) h.0 (sort-All P xs h.1)

  insert_sorted-count_if :
      (p : A → Bool) (x : A) (ys : List A)
      → count_if p (insert_sorted x ys) ≡ (if p x then 1 else 0) + count_if p ys
  unfolding insert_sorted count_if
  insert_sorted-count_if p x [] = refl
  insert_sorted-count_if p x (y ∷ ys) = ground (arith, insert_sorted-count_if p x ys)

  -- The sort keeps how many elements pass any test: it is a permutation.
  pub sort-count_if : (p : A → Bool) (xs : List A) → count_if p (sort xs) ≡ count_if p xs
  unfolding sort count_if
  sort-count_if p [] = refl
  sort-count_if p (x ∷ xs) =
      ground (arith, insert_sorted-count_if p x (sort xs), sort-count_if p xs)

  insert_sorted-length : (x : A) (ys : List A) → length (insert_sorted x ys) ≡ suc (length ys)
  unfolding insert_sorted
  insert_sorted-length x [] = refl
  insert_sorted-length x (y ∷ ys) = ground (arith, insert_sorted-length x ys)

  pub sort-length : (xs : List A) → length (sort xs) ≡ length xs
  unfolding sort
  sort-length [] = refl
  sort-length (x ∷ xs) = omega (arith, insert_sorted-length x (sort xs), sort-length xs)

  module _ (total : (x y : A) → le x y ≡ false → le y x ≡ true)
      (trans : (x y z : A) → le x y ≡ true → le y z ≡ true → le x z ≡ true) where
    insert_sorted-IsSorted :
        (x : A) (ys : List A) → IsSorted le ys → IsSorted le (insert_sorted x ys)
    unfolding insert_sorted
    insert_sorted-IsSorted x [] h = (tt, tt)
    insert_sorted-IsSorted x (y ∷ ys) h = elim (Bool-cases (le x y)) [
      | inl e ↦ rw e ((e, All-map _ _ ys (λ z q. trans x y z e q) h.0), h)
      | inr e ↦ rw e (
        insert_sorted-All (λ z. le y z ≡ true) x ys (total x y e) h.0,
        insert_sorted-IsSorted x ys h.1,
      )
    ]

    pub sort-IsSorted : (xs : List A) → IsSorted le (sort xs)
    unfolding sort
    sort-IsSorted [] = tt
    sort-IsSorted (x ∷ xs) = insert_sorted-IsSorted x (sort xs) (sort-IsSorted xs)

-- The lexicographic order of the derived `Ord`: a key is the list of its fields, by number.
unfoldable pub lex_leb : List ℕ → List ℕ → Bool
lex_leb [] ys = true
lex_leb (x ∷ xs) [] = false
lex_leb (x ∷ xs) (y ∷ ys) = if ltb x y then true else if x == y then lex_leb xs ys else false

pub lex_leb-total : (xs ys : List ℕ) → lex_leb xs ys ≡ false → lex_leb ys xs ≡ true
unfolding lex_leb
lex_leb-total [] ys h = cc
lex_leb-total (x ∷ xs) [] h = refl
lex_leb-total (x ∷ xs) (y ∷ ys) h = ground (arith, lex_leb-total xs ys)

pub lex_leb_trans :
    (xs ys zs : List ℕ) → lex_leb xs ys ≡ true → lex_leb ys zs ≡ true → lex_leb xs zs ≡ true
unfolding lex_leb
lex_leb_trans [] ys zs h k = refl
lex_leb_trans (x ∷ xs) [] zs h k = cc
lex_leb_trans (x ∷ xs) (y ∷ ys) [] h k = cc
lex_leb_trans (x ∷ xs) (y ∷ ys) (z ∷ zs) h k = ground (arith, lex_leb_trans xs ys zs)

pub lex_leb-antisym : (xs ys : List ℕ) → lex_leb xs ys ≡ true → lex_leb ys xs ≡ true → xs ≡ ys
unfolding lex_leb
lex_leb-antisym [] [] h k = refl
lex_leb-antisym [] (y ∷ ys) h k = cc
lex_leb-antisym (x ∷ xs) [] h k = cc
lex_leb-antisym (x ∷ xs) (y ∷ ys) h k = ground (arith, lex_leb-antisym xs ys)

-- The fields of a key as numbers, in the order of the derived `Ord`.
abbrev pub option_key : Option ℕ → ℕ
option_key none = 0
option_key (some n) = suc n

abbrev pub bool_key : Bool → ℕ
bool_key false = 0
bool_key true = 1

module _ {ℓ} {A : Type ℓ} (key : A → List ℕ) where
  -- `sorted_by_key`
  unfoldable pub sort_by_key : List A → List A
  unfolding sort
  sort_by_key = sort (λ x y. lex_leb (key x) (key y))

  pub sort_by_key-IsSorted :
      (xs : List A) → IsSorted (λ x y. lex_leb (key x) (key y)) (sort_by_key xs)
  unfolding sort_by_key
  sort_by_key-IsSorted =
      sort-IsSorted (λ x y. lex_leb (key x) (key y)) (λ x y. lex_leb-total (key x) (key y))
        (λ x y z. lex_leb_trans (key x) (key y) (key z))

  pub sort_by_key-count_if :
      (p : A → Bool) (xs : List A) → count_if p (sort_by_key xs) ≡ count_if p xs
  unfolding sort_by_key
  sort_by_key-count_if = sort-count_if (λ x y. lex_leb (key x) (key y))

  pub sort_by_key-All : (P : A → Type 0) (xs : List A) → All P xs → All P (sort_by_key xs)
  unfolding sort_by_key
  sort_by_key-All = sort-All (λ x y. lex_leb (key x) (key y))

  pub sort_by_key-length : (xs : List A) → length (sort_by_key xs) ≡ length xs
  unfolding sort_by_key
  sort_by_key-length = sort-length (λ x y. lex_leb (key x) (key y))
