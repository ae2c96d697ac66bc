-- ===== src/Spectrum/Scheduler/Targets.antt =====
-- The targets of each class are items, and have the bounds that their round reads.
use eecs_k8s.Prelude.{
  ℕ, ◌≡◌, refl, ◌∙◌, ap, inl, inr, Bool-cases, All, true, false, Bool, some, List, [], ◌∷◌, length,
  get_elem?, arith, is_some, ◌&&◌, suc, ◌+◌,
}
use eecs_k8s.Prelude.Set.{get_elem?-lt}
use eecs_k8s.Spectrum.Float.{Float}
use eecs_k8s.Spectrum.Item.{Item}
use eecs_k8s.Spectrum.Milp.Shape.{IsTarget, has_bound}
use eecs_k8s.Spectrum.Scheduler.{best_effort, burstable, guaranteed, priorities}

-- The items of the list from `index` on.
abbrev IsSuffix : {A : Type 0} → List A → ℕ → List A → Type 0
IsSuffix all index bs = (k : ℕ) → get_elem? all (k + index) ≡ get_elem? bs k

IsSuffix-tail :
    {A : Type 0} (all bs : List A) (index : ℕ) (b : A)
    → IsSuffix all index (b ∷ bs)
    → IsSuffix all (suc index) bs
IsSuffix-tail all bs index b h k = ap (get_elem? all) shift ∙ h (suc k)
  where
    shift : k + suc index ≡ suc k + index
    shift = omega arith

IsSuffix-head :
    {A : Type 0} (all bs : List A) (index : ℕ) (b : A)
    → IsSuffix all index (b ∷ bs)
    → get_elem? all index ≡ some b
IsSuffix-head all bs index b h = ap (get_elem? all) unit ∙ h 0
  where
    unit : index ≡ 0 + index
    unit = omega arith

module _ (fl : Float) {T : Type 0} (all : List (Item fl.F T)) where
  target :
      (use_max : Bool) (index : ℕ) (b : Item fl.F T)
      → get_elem? all index ≡ some b
      → (use_max ≡ true → has_bound (some b) ≡ true)
      → IsTarget all use_max index
  target use_max index b e h = record {
    in_range = get_elem?-lt all index b e;
    bounded = λ u. rw e (h u);
  }

  pub best_effort-IsTarget :
      (index : ℕ) (bs : List (Item fl.F T))
      → IsSuffix all index bs
      → All (IsTarget all false) (best_effort fl index bs)
  unfolding best_effort
  best_effort-IsTarget index [] h = tt
  best_effort-IsTarget index (b ∷ bs) h = elim (Bool-cases (is_some b.resource.max)) [
    | inl e ↦ rw e (best_effort-IsTarget (suc index) bs (IsSuffix-tail all bs index b h))
    | inr e ↦ rw e (
      target false index b (IsSuffix-head all bs index b h) (λ u. cc),
      best_effort-IsTarget (suc index) bs (IsSuffix-tail all bs index b h),
    )
  ]

  pub burstable-IsTarget :
      (index : ℕ) (bs : List (Item fl.F T))
      → IsSuffix all index bs
      → All (IsTarget all true) (burstable fl index bs)
  unfolding burstable
  burstable-IsTarget index [] h = tt
  burstable-IsTarget index (b ∷ bs) h = elim (Bool-cases (is_some b.resource.min)) [
    | inr e ↦ rw e (burstable-IsTarget (suc index) bs (IsSuffix-tail all bs index b h))
    | inl e ↦ rw e (
      target true index b (IsSuffix-head all bs index b h) (λ u. ground arith),
      burstable-IsTarget (suc index) bs (IsSuffix-tail all bs index b h),
    )
  ]

  pub guaranteed-IsTarget :
      (index : ℕ) (bs : List (Item fl.F T))
      → IsSuffix all index bs
      → All (IsTarget all true) (guaranteed fl index bs)
  unfolding guaranteed
  guaranteed-IsTarget index [] h = tt
  guaranteed-IsTarget index (b ∷ bs) h =
      elim (Bool-cases (is_some b.resource.min && is_some b.resource.max)) [
        | inr e ↦ rw e (guaranteed-IsTarget (suc index) bs (IsSuffix-tail all bs index b h))
        | inl e ↦ rw e (
          target true index b (IsSuffix-head all bs index b h) (λ u. ground arith),
          guaranteed-IsTarget (suc index) bs (IsSuffix-tail all bs index b h),
        )
      ]

  pub length-priorities : (bs : List (Item fl.F T)) → length (priorities fl bs) ≡ length bs
  unfolding priorities
  length-priorities [] = refl
  length-priorities (b ∷ bs) = ap suc (length-priorities bs)

  pub whole : IsSuffix all 0 all
  whole k = ap (get_elem? all) unit
    where
      unit : k + 0 ≡ k
      unit = omega arith
