-- ===== src/Spectrum/Scheduler/Conserve.antt =====
-- With an honest solver every resource ends in one place.
use eecs_k8s.Prelude.{
  zero_add, add_zero, add_suc, ℕ, zero, suc, ◌+◌, ◌<◌, ◌≤◌, ◌≡◌, ◌∙◌, refl, Bool, Option, some,
  none, List, [], ◌∷◌, ◌++◌, ◌==◌, ◌||◌, ltb, All, All-map, length, get_elem?, arith, if◌then◌else◌,
}
use eecs_k8s.Prelude.Int.{ℤ}
use eecs_k8s.Prelude.Set.{count, total, modify, total-modify_push, count-insert_above, insert-below}
use eecs_k8s.Prelude.Panic.{
  unwrap, Yields, Yields-bind, Yields-unwrap, Yields-if, Yields-map, Yields-any,
}
use eecs_k8s.Spectrum.Float.{Float, FloatLaws}
use eecs_k8s.Spectrum.Schema.{PoolResource, CommitState, pending, preparing, running}
use eecs_k8s.Spectrum.Item.{State, Item, WeightedItems}
use eecs_k8s.Spectrum.Milp.{Problem, Solution, solve}
use eecs_k8s.Spectrum.Milp.Store.{placed, Kept, Kept-refl, Kept-trans}
use eecs_k8s.Spectrum.Milp.Round.{IsHonest, solve-Kept}
use eecs_k8s.Spectrum.Scheduler.{
  tier_solver, rest_solver, solve_tiers, solve_class, solve_rest, allocate, plan, prefill,
  prefill_one, lock, release, initial_state, fill_weights, weights_avg, guaranteed, burstable,
  best_effort, priorities, build_tiers, repeat,
}

-- The resources below `n` are each in one place, the others in none.
record IsPlaced {F T : Type 0} (n : ℕ) (st : State F T) : Type 0 where
  in_place : (k : ℕ) → placed st k ≡ (if ltb k n then 1 else 0)
  below : All (λ k. k < n) st.remaining

module _ (fl : Float) {T : Type 0} where
  lock-IsPlaced :
      (st : State fl.F T) (i j : ℕ) → IsPlaced i st → Yields (IsPlaced (suc i)) (lock fl st i j)
  unfolding lock
  lock-IsPlaced st i j h =
      Yields-bind (λ a. modify st.allocated j (λ xs. xs ++ i ∷ []) ≡ some a) (IsPlaced (suc i))
        (unwrap (modify st.allocated j (λ xs. xs ++ i ∷ []))) _
        (Yields-unwrap _ _ (modify st.allocated j (λ xs. xs ++ i ∷ [])) (λ a e. e))
        λ a e.
          Yields-bind (λ _. Unit) (IsPlaced (suc i)) (unwrap (get_elem? st.weights i)) _
            (Yields-any _)
            λ w _.
              Yields-bind (λ _. Unit) (IsPlaced (suc i))
                (unwrap (modify st.filled j (λ f. fl.add f w))) _ (Yields-any _)
                λ f _. record {
                  in_place =
                      λ k. ground (arith, total-modify_push k j i st.allocated a e, h.in_place k);
                  below =
                      All-map (λ k. k < i) (λ k. k < suc i) st.remaining (λ k lt. omega arith)
                        h.below;
                }

  release-IsPlaced :
      (st : State fl.F T) (i : ℕ) → IsPlaced i st → IsPlaced (suc i) (release fl st i)
  unfolding release
  release-IsPlaced st i h = record {
    in_place = λ k. ground (arith, count-insert_above k i st.remaining h.below, h.in_place k);
    below = insert-below i st.remaining h.below;
  }

  prefill_one-IsPlaced :
      (i : ℕ) (claim : Option ℕ) (state : CommitState) (st : State fl.F T)
      → IsPlaced i st
      → Yields (IsPlaced (suc i)) (prefill_one fl i claim state st)
  unfolding prefill_one
  prefill_one-IsPlaced i (some j) preparing st h = lock-IsPlaced st i j h
  prefill_one-IsPlaced i none preparing st h = release-IsPlaced st i h
  prefill_one-IsPlaced i claim pending st h = release-IsPlaced st i h
  prefill_one-IsPlaced i claim running st h = release-IsPlaced st i h

  prefill-IsPlaced :
      (i : ℕ) (bs : List (PoolResource ℕ)) (st : State fl.F T)
      → IsPlaced i st
      → Yields (IsPlaced (i + length bs)) (prefill fl i bs st)
  unfolding prefill
  prefill-IsPlaced i [] st h = rw (add_zero i) h
  prefill-IsPlaced i (b ∷ bs) st h =
      Yields-bind (IsPlaced (suc i)) (IsPlaced (i + length (b ∷ bs)))
        (prefill_one fl i b.claim b.state st) _ (prefill_one-IsPlaced i b.claim b.state st h)
        λ next p. rw (add_suc i (length bs)) (prefill-IsPlaced (suc i) bs next p)

total-repeat : (i n : ℕ) → total i (repeat n []) ≡ 0
unfolding total repeat count
total-repeat i zero = refl
total-repeat i (suc n) = omega (arith, total-repeat i n)

at_most : (b : Bool) (a c : ℕ) → a + c ≡ (if b then 1 else 0) → c ≤ 1
at_most b a c h = ground arith

module _ (fl : Float) {T : Type 0} (laws : FloatLaws fl) (solver : Problem fl.F → Solution fl.F)
    (honest : IsHonest fl solver) where
  abbrev OnePlace : State fl.F T → Type 0
  OnePlace st = (k : ℕ) → count k st.remaining ≤ 1

  stays : (st next : State fl.F T) → OnePlace st → Kept st next → OnePlace next
  stays st next one h k = omega (arith, one k, h.less k)

  solve_tiers-Kept :
      (tiers : List (List ℕ)) (st : State fl.F T)
      → OnePlace st
      → Yields (Kept st) (solve_tiers fl solver tiers st)
  unfolding solve_tiers
  solve_tiers-Kept [] st one = Kept-refl st
  solve_tiers-Kept (js ∷ tiers) st one =
      Yields-bind (λ r. Kept st r.1) (Kept st) (solve fl solver (tier_solver js) st) _
        (solve-Kept fl (tier_solver js) st laws one solver honest)
        λ r k.
          Yields-if (Kept st) r.0 _ _
            (λ _.
              Yields-map (Kept r.1) (Kept st) (solve_tiers fl solver tiers r.1)
                (λ last t. Kept-trans st r.1 last k t)
                (solve_tiers-Kept tiers r.1 (stays st r.1 one k)))
            (λ _. k)

  solve_class-Kept :
      (priority : List ℤ) (targets : List ℕ) (st : State fl.F T)
      → OnePlace st
      → Yields (Kept st) (solve_class fl solver priority targets st)
  unfolding solve_class
  solve_class-Kept priority targets st one =
      Yields-bind (λ _. Unit) (Kept st) (build_tiers priority targets) _ (Yields-any _)
        (λ tiers _. solve_tiers-Kept tiers st one)

  solve_rest-Kept :
      (targets : List ℕ) (st : State fl.F T)
      → OnePlace st
      → Yields (Kept st) (solve_rest fl solver targets st)
  unfolding solve_rest
  solve_rest-Kept targets st one =
      Yields-if (Kept st) (length st.remaining == 0 || length targets == 0) _ _ (λ _. Kept-refl st)
        (λ _.
          Yields-bind (λ r. Kept st r.1) (Kept st) (solve fl solver (rest_solver targets) st) _
            (solve-Kept fl (rest_solver targets) st laws one solver honest) (λ r k. k))

  allocate-Kept : (st : State fl.F T) → OnePlace st → Yields (Kept st) (allocate fl solver st)
  unfolding allocate
  allocate-Kept st one =
      Yields-bind (Kept st) (Kept st)
        (solve_class fl solver (priorities fl st.items) (guaranteed fl 0 st.items) st) _
        (solve_class-Kept (priorities fl st.items) (guaranteed fl 0 st.items) st one)
        λ st1 k1.
          Yields-bind (Kept st1) (Kept st)
            (solve_class fl solver (priorities fl st.items) (burstable fl 0 st.items) st1) _
            (solve_class-Kept (priorities fl st.items) (burstable fl 0 st.items) st1
              (stays st st1 one k1))
            λ st2 k2.
              Yields-map (Kept st2) (Kept st) (solve_rest fl solver (best_effort fl 0 st.items) st2)
                (λ st3 k3. Kept-trans st st1 st3 k1 (Kept-trans st1 st2 st3 k2 k3))
                (solve_rest-Kept (best_effort fl 0 st.items) st2
                  (stays st1 st2 (stays st st1 one k1) k2))

  -- With an honest solver, the state that is collected has each resource that has a binding in
  -- exactly one place, with one item or among those that remain, and no other resource.
  pub plan_conserves :
      {S : Type 0} (items : List (Item fl.F T)) (bound : List (PoolResource ℕ))
      (resources : WeightedItems fl.F S) (k : ℕ)
      → Yields
          (λ st. placed st k ≡ (if ltb k (length bound) then 1 else 0))
          (plan fl solver items bound resources)
  unfolding plan
  plan_conserves items bound resources k =
      Yields-bind (IsPlaced (length bound))
        (λ st. placed st k ≡ (if ltb k (length bound) then 1 else 0)) (prefill fl 0 bound start) _
        (rw (zero_add (length bound)) at (prefill-IsPlaced fl 0 bound start started))
        λ st p.
          Yields-map (Kept st) _ (allocate fl solver st) (λ last t. t.same_placed k ∙ p.in_place k)
            (allocate-Kept st (λ i.
              at_most (ltb i (length bound)) (total i st.allocated) (count i st.remaining)
                (p.in_place i)))
    where
      start : State fl.F T
      start =
          initial_state fl items bound
            (fill_weights fl (weights_avg fl resources.weights) resources.weights)

      started : IsPlaced 0 start
      started =
          unfold initial_state in
          unfold count in
          record { in_place = λ i. ground (arith, total-repeat i (length items)); below = tt }
