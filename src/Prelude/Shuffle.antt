-- ===== src/Prelude/Shuffle.antt =====
-- A sort by distinct keys does not depend on the order of its input.
use mathlib.Core.Path.{subst}
use mathlib.Core.List.{Permᴰ}
use eecs_k8s.Prelude.{
  ◌≡◌, refl, sym, ◌∙◌, ap, Bool, true, false, not, List, [], ◌∷◌, All, Bool-cases, inl, inr,
}
use eecs_k8s.Prelude.Sort.{IsSorted, sort, insert_sorted}

module _ {A : Type 0} (le : A → A → Bool) where
  -- One of the two is before the other.
  abbrev pub Apart : A → A → Type 0
  Apart x y = le x y ≡ not (le y x)

  abbrev pub Distinct : List A → Type 0
  Distinct [] = Unit
  Distinct (x ∷ xs) = All (Apart x) xs × Distinct xs

  insert_sorted_first :
      (x : A) (xs : List A) → All (λ y. le x y ≡ true) xs → insert_sorted le x xs ≡ x ∷ xs
  unfolding insert_sorted
  insert_sorted_first x [] h = refl
  insert_sorted_first x (y ∷ ys) h = rw h.0

  -- A list in order is left as it is.
  pub sort_sorted : (xs : List A) → IsSorted le xs → sort le xs ≡ xs
  unfolding sort
  sort_sorted [] h = refl
  sort_sorted (x ∷ xs) h = rw (sort_sorted xs h.1) (insert_sorted_first x xs h.0)

  flip : (x y : A) → Apart x y → Apart y x
  flip x y h = elim (Bool-cases (le y x)) [ inl e ↦ rw (h, e) | inr e ↦ rw (h, e) ]

  module _ (trans : (x y z : A) → le x y ≡ true → le y z ≡ true → le x z ≡ true) where
    insert_sorted_swap :
        (x y : A) (zs : List A)
        → le x y ≡ true
        → le y x ≡ false
        → insert_sorted le x (insert_sorted le y zs) ≡ insert_sorted le y (insert_sorted le x zs)
    unfolding insert_sorted
    insert_sorted_swap x y [] h k = rw (h, k) refl
    insert_sorted_swap x y (z ∷ zs) h k = elim (Bool-cases (le y z)) [
      | inl e ↦ rw (e, h, trans x y z h e, k, e) refl
      | inr e ↦ elim (Bool-cases (le x z)) [
        | inl f ↦ rw (e, f, k, e) refl
        | inr f ↦ rw (e, f, e) (ap (λ ws. z ∷ ws) (insert_sorted_swap x y zs h k))
      ]
    ]

    swap-Apart :
        (x y : A) (zs : List A)
        → Apart x y
        → insert_sorted le x (insert_sorted le y zs) ≡ insert_sorted le y (insert_sorted le x zs)
    swap-Apart x y zs h = elim (Bool-cases (le y x)) [
      | inl e ↦ sym (insert_sorted_swap y x zs e (h ∙ rw e refl))
      | inr e ↦ insert_sorted_swap x y zs (h ∙ rw e refl) e
    ]

    pub permuted-All : (P : A → Type 0) {xs ys : List A} → Permᴰ xs ys → All P xs → All P ys
    permuted-All P Permᴰ.nil h = tt
    permuted-All P (Permᴰ.cons e d) h = (subst P e h.0, permuted-All P d h.1)
    permuted-All P (Permᴰ.swap e f) h = (subst P f h.1.0, (subst P e h.0, h.1.1))
    permuted-All P (Permᴰ.trans d e) h = permuted-All P e (permuted-All P d h)

    permuted-Distinct : {xs ys : List A} → Permᴰ xs ys → Distinct xs → Distinct ys
    permuted-Distinct Permᴰ.nil h = tt
    permuted-Distinct (Permᴰ.cons {b = b} {l₁ = xs} e d) h =
        (permuted-All (Apart b) d (subst (λ c. All (Apart c) xs) e h.0), permuted-Distinct d h.1)
    permuted-Distinct (Permᴰ.swap {a = a} {b = b} {a' = a'} {b' = b'} {l = xs} e f) h = (
      (
        subst (λ c. Apart c b') f (subst (λ c. Apart b c) e (flip a b h.0.0)),
        subst (λ c. All (Apart c) xs) f h.1.0,
      ),
      (subst (λ c. All (Apart c) xs) e h.0.1, h.1.1),
    )
    permuted-Distinct (Permᴰ.trans d e) h = permuted-Distinct e (permuted-Distinct d h)

    pub sort_permuted : {xs ys : List A} → Permᴰ xs ys → Distinct xs → sort le xs ≡ sort le ys
    unfolding sort
    sort_permuted Permᴰ.nil h = refl
    sort_permuted (Permᴰ.cons {b = b} {l₁ = xs} e d) h =
        ap (λ c. insert_sorted le c (sort le xs)) e ∙ ap (insert_sorted le b) (sort_permuted d h.1)
    sort_permuted (Permᴰ.swap {a = a} {b = b} {a' = a'} {l = xs} e f) h =
        swap-Apart a b (sort le xs) h.0.0
        ∙ ap (λ c. insert_sorted le c (insert_sorted le a (sort le xs))) f
        ∙ ap (λ c. insert_sorted le a' (insert_sorted le c (sort le xs))) e
    sort_permuted (Permᴰ.trans d e) h = sort_permuted d h ∙ sort_permuted e (permuted-Distinct d h)
