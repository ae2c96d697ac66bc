-- ===== src/Spectrum/Scheduler/Tiers.antt =====
-- The tiers hold the targets, from the least priority on.
use eecs_k8s.Prelude.{ℕ, ◌<◌, All, All-append, List, [], ◌∷◌, length, get_elem?, arith}
use eecs_k8s.Prelude.Int.{ℤ}
use eecs_k8s.Prelude.Panic.{unwrap, Safe, Safe-bind, Safe-unwrap}
use eecs_k8s.Prelude.Set.{get_elem?-is_some}
use eecs_k8s.Spectrum.Scheduler.{Tiers, push_tier, group_tiers, tier_items, build_tiers}

-- The tiers hold only targets.
abbrev HasTargets : (ℕ → Type 0) → Tiers → Type 0
HasTargets P ts = All (λ t. All P t.1) ts

push_tier-HasTargets :
    (P : ℕ → Type 0) (p : ℤ) (j : ℕ) (ts : Tiers)
    → P j
    → HasTargets P ts
    → HasTargets P (push_tier p j ts)
unfolding push_tier
push_tier-HasTargets P p j [] pj h = ((pj, tt), tt)
push_tier-HasTargets P p j ((q, js) ∷ ts) pj h =
    ground (arith, push_tier-HasTargets P p j ts pj h.1, All-append P js (j ∷ []) h.0)

group_tiers-Safe :
    (P : ℕ → Type 0) (priority : List ℤ) (js : List ℕ) (ts : Tiers)
    → All P js
    → All (λ j. j < length priority) js
    → HasTargets P ts
    → Safe (HasTargets P) (group_tiers priority js ts)
unfolding group_tiers
group_tiers-Safe P priority [] ts h r t = t
group_tiers-Safe P priority (j ∷ js) ts h r t =
    Safe-bind (λ _. Unit) (HasTargets P) (unwrap (get_elem? priority j)) _
      (Safe-unwrap _ (λ _. Unit) (get_elem? priority j) (get_elem?-is_some priority j r.0)
        (λ _ _. tt))
      λ p _.
        group_tiers-Safe P priority js (push_tier p j ts) h.1 r.1
          (push_tier-HasTargets P p j ts h.0 t)

tier_items-All : (P : ℕ → Type 0) (ts : Tiers) → HasTargets P ts → All (All P) (tier_items ts)
unfolding tier_items
tier_items-All P [] h = tt
tier_items-All P ((p, js) ∷ ts) h = (h.0, tier_items-All P ts h.1)

pub build_tiers-Safe :
    (P : ℕ → Type 0) (priority : List ℤ) (js : List ℕ)
    → All P js
    → All (λ j. j < length priority) js
    → Safe (All (All P)) (build_tiers priority js)
unfolding build_tiers
build_tiers-Safe P priority js h r =
    Safe-bind (HasTargets P) (All (All P)) (group_tiers priority js []) _
      (group_tiers-Safe P priority js [] h r tt) (λ ts t. tier_items-All P ts t)
