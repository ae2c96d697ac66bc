-- ===== src/Spectrum/Scheduler/Total.antt =====
-- `schedule` does not panic, and answers for every item.
use eecs_k8s.Prelude.{
  sym, ℕ, ◌<◌, ◌≤◌, ◌≡◌, refl, ◌∙◌, ap, inl, inr, Bool-cases, All, All-map, true, false, Option,
  List, [], ◌∷◌, length, arith, ◌||◌, ◌==◌, ◌⊎◌, suc,
}
use eecs_k8s.Prelude.Panic.{ok, assert, Safe, Safe-bind, Safe-map, Safe-if}
use eecs_k8s.Spectrum.Float.{Float}
use eecs_k8s.Spectrum.Schema.{PoolResource}
use eecs_k8s.Spectrum.Item.{
  State, Item, WeightedItems, ScheduledItem, collect, collect_items, take_all, wrap_some,
}
use eecs_k8s.Spectrum.Milp.{ResolutionError, Problem, Solution, solve}
use eecs_k8s.Spectrum.Milp.Shape.{
  IsShaped, IsTarget, IsSuccessor, IsSuccessor-refl, IsSuccessor-trans,
}
use eecs_k8s.Spectrum.Milp.Total.{solve-Safe}
use eecs_k8s.Spectrum.Scheduler.{
  tier_solver, rest_solver, solve_tiers, solve_class, solve_rest, allocate, plan, schedule, prefill,
  initial_state, fill_weights, weights_avg, guaranteed, burstable, best_effort, priorities,
  build_tiers,
}
use eecs_k8s.Spectrum.Scheduler.Tiers.{build_tiers-Safe}
use eecs_k8s.Spectrum.Scheduler.Targets.{
  guaranteed-IsTarget, burstable-IsTarget, best_effort-IsTarget, length-priorities, whole,
}
use eecs_k8s.Spectrum.Scheduler.Prefill.{
  ClaimInRange, prefill-Safe, length-repeat, length-fill_weights,
}

module _ (fl : Float) {T : Type 0} (solver : Problem fl.F → Solution fl.F) where
  solve_tiers-Safe :
      (tiers : List (List ℕ)) (st : State fl.F T)
      → IsShaped st
      → All (All (IsTarget st.items true)) tiers
      → Safe (IsSuccessor st) (solve_tiers fl solver tiers st)
  unfolding solve_tiers
  solve_tiers-Safe [] st shaped h = IsSuccessor-refl st shaped
  solve_tiers-Safe (js ∷ tiers) st shaped h =
      Safe-bind (λ r. IsSuccessor st r.1) (IsSuccessor st) (solve fl solver (tier_solver js) st) _
        (solve-Safe fl solver (tier_solver js) st shaped h.0)
        λ r s.
          Safe-if (IsSuccessor st) r.0 _ _
            (λ _.
              Safe-map (IsSuccessor r.1) (IsSuccessor st) (solve_tiers fl solver tiers r.1)
                (λ last t. IsSuccessor-trans st r.1 last s t)
                (solve_tiers-Safe tiers r.1 s.shaped (rw s.same_items h.1)))
            (λ _. s)

  solve_class-Safe :
      (items : List (Item fl.F T)) (targets : List ℕ) (st : State fl.F T)
      → IsShaped st
      → items ≡ st.items
      → All (IsTarget items true) targets
      → Safe (IsSuccessor st) (solve_class fl solver (priorities fl items) targets st)
  unfolding solve_class
  solve_class-Safe items targets st shaped e h =
      Safe-bind (All (All (IsTarget items true))) (IsSuccessor st)
        (build_tiers (priorities fl items) targets) _
        (build_tiers-Safe (IsTarget items true) (priorities fl items) targets h (
          All-map (IsTarget items true) (λ j. j < length (priorities fl items)) targets
            (λ j t. rw (length-priorities fl items items) t.in_range) h))
        (λ tiers t. solve_tiers-Safe tiers st shaped (rw (sym e) t))

  solve_rest-Safe :
      (targets : List ℕ) (st : State fl.F T)
      → IsShaped st
      → All (IsTarget st.items false) targets
      → Safe (IsSuccessor st) (solve_rest fl solver targets st)
  unfolding solve_rest
  solve_rest-Safe targets st shaped h =
      Safe-if (IsSuccessor st) (length st.remaining == 0 || length targets == 0) _ _
        (λ _. IsSuccessor-refl st shaped)
        (λ _.
          Safe-bind (λ r. IsSuccessor st r.1) (IsSuccessor st)
            (solve fl solver (rest_solver targets) st) _
            (solve-Safe fl solver (rest_solver targets) st shaped h) (λ r s. s))

  allocate-Safe : (st : State fl.F T) → IsShaped st → Safe (IsSuccessor st) (allocate fl solver st)
  unfolding allocate
  allocate-Safe st shaped =
      Safe-bind (IsSuccessor st) (IsSuccessor st) _ _
        (solve_class-Safe st.items (guaranteed fl 0 st.items) st shaped refl
          (guaranteed-IsTarget fl st.items 0 st.items (whole fl st.items)))
        λ st1 s1.
          Safe-bind (IsSuccessor st) (IsSuccessor st) _ _
            (Safe-map (IsSuccessor st1) (IsSuccessor st) _
              (λ st2 s2. IsSuccessor-trans st st1 st2 s1 s2)
              (solve_class-Safe st.items (burstable fl 0 st.items) st1 s1.shaped (sym s1.same_items)
                (burstable-IsTarget fl st.items 0 st.items (whole fl st.items))))
            λ st2 s2.
              Safe-map (IsSuccessor st2) (IsSuccessor st) _
                (λ st3 s3. IsSuccessor-trans st st2 st3 s2 s3)
                (solve_rest-Safe (best_effort fl 0 st.items) st2 s2.shaped (
                  rw s2.same_items
                    (best_effort-IsTarget fl st.items 0 st.items (whole fl st.items))))

  initial_state-IsShaped :
      (items : List (Item fl.F T)) (bound : List (PoolResource ℕ)) (weights : List fl.F)
      → length bound ≤ length weights
      → IsShaped (initial_state fl items bound weights)
  unfolding initial_state
  initial_state-IsShaped items bound weights h = record {
    allocated_length = length-repeat (length items) [];
    filled_length = length-repeat (length items) fl.zero;
    weights_length = h;
    remaining_bound = tt;
  }

  -- What holds of the state that is collected.
  record IsPlan (items : List (Item fl.F T)) (st : State fl.F T) : Type 0 where
    shaped : IsShaped st
    same_items : st.items ≡ items

  plan-Safe :
      {S : Type 0} (items : List (Item fl.F T)) (bound : List (PoolResource ℕ))
      (resources : WeightedItems fl.F S)
      → length bound ≤ length resources.weights
      → All (ClaimInRange (length items)) bound
      → Safe (IsPlan items) (plan fl solver items bound resources)
  unfolding plan
  plan-Safe items bound resources hb hc =
      Safe-bind (IsSuccessor start) (IsPlan items) (prefill fl 0 bound start) _ prefilled λ st s.
        Safe-map (IsSuccessor st) (IsPlan items) (allocate fl solver st)
          (λ last t. record {
            shaped = t.shaped;
            same_items = t.same_items ∙ s.same_items ∙ unfold initial_state in refl;
          })
          (allocate-Safe st s.shaped)
    where
      weights : List fl.F
      weights = fill_weights fl (weights_avg fl resources.weights) resources.weights

      enough : length bound ≤ length weights
      enough = rw (length-fill_weights fl (weights_avg fl resources.weights) resources.weights) hb

      start : State fl.F T
      start = initial_state fl items bound weights

      prefilled : Safe (IsSuccessor start) (prefill fl 0 bound start)
      prefilled =
          unfold initial_state in
          prefill-Safe fl 0 bound start (initial_state-IsShaped items bound weights enough)
            (omega arith) hc

length-collect_items :
    {F S T : Type 0} (items : List (Item F T)) (allocated : List (List ℕ)) (pool : List (Option S))
    → length allocated ≡ length items
    → length (collect_items items allocated pool) ≡ length items
unfolding collect_items
length-collect_items [] allocated pool e = refl
length-collect_items (b ∷ bs) [] pool e = omega (arith, e)
length-collect_items (b ∷ bs) (a ∷ allocated) pool e =
    ap suc (length-collect_items bs allocated (take_all a pool).1 (omega (arith, e)))

length-collect :
    {F S T : Type 0} (st : State F T) (resources : WeightedItems F S)
    → IsShaped st
    → length (collect st resources) ≡ length st.items
unfolding collect
length-collect st resources shaped =
    length-collect_items st.items st.allocated (wrap_some resources.items) shaped.allocated_length

-- Whatever the solver answers, `schedule` does not panic where the bindings are not more than the
-- resources, each claim that they hold is an item, and every resource has its weight or none: it
-- returns an error of the solver, an entry for every item, or nothing where there is no resource.
pub schedule-Safe :
    (fl : Float) {S T : Type 0} (solver : Problem fl.F → Solution fl.F) (items : List (Item fl.F T))
    (bound : List (PoolResource ℕ)) (resources : WeightedItems fl.F S)
    → length resources.items ≡ length resources.weights
    → length bound ≤ length resources.weights
    → All (ClaimInRange (length items)) bound
    → Safe
        (λ out. length out ≡ length items ⊎ (length resources.items ≡ 0 × length out ≡ 0))
        (schedule fl solver items bound resources)
unfolding schedule
schedule-Safe fl {S = S} {T = T} solver items bound resources e hb hc =
    Safe-bind (λ _. Unit) Answers (assert (length resources.items == length resources.weights)) _
      asserted
      λ _ _. Safe-if Answers (length items == 0 || length resources.items == 0) _ _ stopped λ _.
        Safe-bind (IsPlan fl solver items) Answers (plan fl solver items bound resources) _
          (plan-Safe fl solver items bound resources hb hc)
          λ st p. inl (length-collect st resources p.shaped ∙ ap length p.same_items)
  where
    Answers : List (ScheduledItem S T) → Type 0
    Answers out = length out ≡ length items ⊎ (length resources.items ≡ 0 × length out ≡ 0)

    asserted :
        Safe {E = ResolutionError}
          (λ _. Unit)
          (assert (length resources.items == length resources.weights))
    asserted = ground (arith, e)

    stopped :
        (length items == 0 || length resources.items == 0) ≡ true
        → Safe {E = ResolutionError} Answers (ok [])
    stopped h = elim (Bool-cases (length items == 0)) [
      | inl none_left ↦ inl (ground arith)
      | inr some_left ↦ inr (ground arith, refl)
    ]
