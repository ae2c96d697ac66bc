-- ===== src/Prelude/Dict/Unique.antt =====
-- Maps in which no key occurs twice.
use eecs_k8s.Prelude.{◌≡◌, refl, ◌∙◌, ap, none, some, [], ◌∷◌, Bool-cases, inl, inr}
use eecs_k8s.Prelude.Dict.{get-remove_self, get-remove_ne, Eq, Dict, get, remove, insert}

module _ {K V : Type 0} ⦃e : Eq K⦄ where
  abbrev pub IsUnique : Dict K V → Type 0
  IsUnique [] = Unit
  IsUnique ((k, v) ∷ d) = (get d k ≡ none) × IsUnique d

  pub remove_absent : (k : K) (d : Dict K V) → get d k ≡ none → remove k d ≡ d
  unfolding get remove
  remove_absent k [] h = refl
  remove_absent k ((l, v) ∷ d) h = elim (Bool-cases (e.beq k l)) [
    | inl g ↦ absurd (clash_some (rw g at h))
    | inr g ↦ rw g (ap (λ b. (l, v) ∷ b) (remove_absent k d (rw g at h)))
  ]
    where
      clash_some : {v : V} → some v ≡ none → ⊥
      clash_some h = cc

  get-remove_absent : (k l : K) (d : Dict K V) → get d l ≡ none → get (remove k d) l ≡ none
  get-remove_absent k l d h = elim (Bool-cases (e.beq l k)) [
    | inl g ↦ rw ((e.beq_iff l k).0 g) (get-remove_self k d)
    | inr g ↦ get-remove_ne k l d g ∙ h
  ]

  pub remove-IsUnique : (k : K) (d : Dict K V) → IsUnique d → IsUnique (remove k d)
  unfolding remove
  remove-IsUnique k [] h = tt
  remove-IsUnique k ((l, v) ∷ d) h = elim (Bool-cases (e.beq k l)) [
    | inl g ↦ rw g (remove-IsUnique k d h.1)
    | inr g ↦ rw g (get-remove_absent k l d h.0, remove-IsUnique k d h.1)
  ]

  pub insert-IsUnique : (k : K) (v : V) (d : Dict K V) → IsUnique d → IsUnique (insert k v d)
  unfolding insert
  insert-IsUnique k v d h = (get-remove_self k d, remove-IsUnique k d h)
