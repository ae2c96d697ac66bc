-- ===== src/Spectrum/Scheduler/Ascending.antt =====
-- The order of the tiers.
use eecs_k8s.Prelude.{
  ℕ, ◌+◌, ◌≡◌, refl, inl, inr, Bool-cases, All, All-append, All-map, true, Bool, some, List, [],
  ◌∷◌, get_elem?, arith,
}
use eecs_k8s.Prelude.Int.{ℤ, ltb_ℤ, eq_ℤ, eq_ℤ→eq, ltb_ℤ_trans, ltb_ℤ-total}
use eecs_k8s.Prelude.Select.{count_if, count_if-append}
use eecs_k8s.Prelude.Panic.{Yields, Yields-bind, Yields-unwrap, Yields-map, unwrap}
use eecs_k8s.Spectrum.Scheduler.{Tiers, push_tier, group_tiers}

module _ (priority : List ℤ) (p : ℕ → Bool) where
  -- Strictly ascending, each tier over targets of its own priority.
  abbrev pub IsAscending : Tiers → Type 0
  IsAscending [] = Unit
  IsAscending ((q, js) ∷ ts) =
      All (λ j. get_elem? priority j ≡ some q) js
      × All (λ t. ltb_ℤ q t.0 ≡ true) ts
      × IsAscending ts

  abbrev pub tiers_count : Tiers → ℕ
  tiers_count [] = 0
  tiers_count ((q, js) ∷ ts) = count_if p js + tiers_count ts

  push_tier-Above :
      (b q : ℤ) (j : ℕ) (ts : Tiers)
      → ltb_ℤ b q ≡ true
      → All (λ t. ltb_ℤ b t.0 ≡ true) ts
      → All (λ t. ltb_ℤ b t.0 ≡ true) (push_tier q j ts)
  unfolding push_tier
  push_tier-Above b q j [] h k = (h, tt)
  push_tier-Above b q j ((r, js) ∷ ts) h k = ground (arith, push_tier-Above b q j ts h k.1)

  push_tier-IsAscending :
      (q : ℤ) (j : ℕ) (ts : Tiers)
      → get_elem? priority j ≡ some q
      → IsAscending ts
      → IsAscending (push_tier q j ts)
  unfolding push_tier
  push_tier-IsAscending q j [] e h = ((e, tt), tt, tt)
  push_tier-IsAscending q j ((r, js) ∷ ts) e h = elim (Bool-cases (ltb_ℤ q r)) [
    | inl before ↦
        rw before ((e, tt), (before, All-map _ _ ts (λ t k. ltb_ℤ_trans q r t.0 before k) h.1), h)
    | inr not_before ↦ elim (Bool-cases (eq_ℤ q r)) [
      | inl same ↦
          rw not_before
            (rw same (All-append _ js (j ∷ []) h.0 (rw (eq_ℤ→eq q r same) at e, tt), h.1, h.2))
      | inr other ↦ rw not_before (
          rw other (
            h.0,
            push_tier-Above r q j ts (ltb_ℤ-total q r not_before other) h.1,
            push_tier-IsAscending q j ts e h.2,
          ))
    ]
  ]

  push_tier-count :
      (q : ℤ) (j : ℕ) (ts : Tiers)
      → tiers_count (push_tier q j ts) ≡ count_if p (j ∷ []) + tiers_count ts
  unfolding push_tier count_if
  push_tier-count q j [] = refl
  push_tier-count q j ((r, js) ∷ ts) =
      ground (arith, push_tier-count q j ts, count_if-append p js (j ∷ []))

  -- The tiers are strictly ascending by priority, each holds targets of its own priority, and with
  -- those of the map before they are the targets, each as often.
  pub group_tiers-IsAscending :
      (js : List ℕ) (ts : Tiers)
      → IsAscending ts
      → Yields
          (λ out. IsAscending out × (tiers_count out ≡ count_if p js + tiers_count ts))
          (group_tiers priority js ts)
  unfolding group_tiers count_if
  group_tiers-IsAscending [] ts h = (h, omega arith)
  group_tiers-IsAscending (j ∷ js) ts h =
      Yields-bind (λ q. get_elem? priority j ≡ some q)
        (λ out. IsAscending out × (tiers_count out ≡ count_if p (j ∷ js) + tiers_count ts))
        (unwrap (get_elem? priority j)) _
        (Yields-unwrap _ (λ q. get_elem? priority j ≡ some q) (get_elem? priority j) (λ _ e. e))
        λ q e.
          Yields-map _ _ (group_tiers priority js (push_tier q j ts))
            (λ out k. (k.0, omega (arith, k.1, push_tier-count q j ts)))
            (group_tiers-IsAscending js (push_tier q j ts) (push_tier-IsAscending q j ts e h))
