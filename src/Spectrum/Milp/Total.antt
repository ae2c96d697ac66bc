-- ===== src/Spectrum/Milp/Total.antt =====
-- A round of the scheduler does not panic.
use eecs_k8s.Prelude.{
  inr, inl, ◌++◌, ◌∙◌, Bool-cases, ◌||◌, All-map, ℕ, suc, ◌<◌, ◌≡◌, refl, List, [], ◌∷◌, ◌==◌, All,
  arith, length, get_elem?, if◌then◌else◌,
}
use eecs_k8s.Prelude.Panic.{Safe-map, ok, unwrap, Safe, Safe-bind, Safe-unwrap}
use eecs_k8s.Prelude.Set.{remove-All, length-modify, modify-is_some, modify, get_elem?-is_some}
use eecs_k8s.Spectrum.Float.{Float}
use eecs_k8s.Spectrum.Item.{State}
use eecs_k8s.Spectrum.Milp.{
  unbounded, infeasible, solved, other, unsolved, store_solution, Solution, Variable, Solver,
  Problem, solve, store_row, assign, build_problem, store_rows,
}
use eecs_k8s.Spectrum.Milp.Shape.{
  IsShaped, IsTarget, IsSuccessor, IsSuccessor-refl, IsSuccessor-trans,
}
use eecs_k8s.Spectrum.Milp.Build.{build_problem-Safe}

module _ (fl : Float) {T : Type 0} where
  assign-Safe :
      (st : State fl.F T) (i j : ℕ)
      → IsShaped st
      → i < length st.bound
      → j < length st.items
      → Safe (IsSuccessor st) (assign fl st i j)
  unfolding assign
  assign-Safe st i j shaped hi hj =
      Safe-bind (λ a. length a ≡ length st.allocated) (IsSuccessor st)
        (unwrap (modify st.allocated j (λ xs. xs ++ i ∷ []))) _
        (Safe-unwrap _ (λ a. length a ≡ length st.allocated)
          (modify st.allocated j (λ xs. xs ++ i ∷ []))
          (modify-is_some st.allocated j _ (omega (arith, shaped.allocated_length)))
          (λ a e. length-modify st.allocated a j _ e))
        λ a ea.
          Safe-bind (λ _. Unit) (IsSuccessor st) (unwrap (get_elem? st.weights i)) _
            (Safe-unwrap _ (λ _. Unit) (get_elem? st.weights i)
              (get_elem?-is_some st.weights i (omega (arith, shaped.weights_length))) (λ _ _. tt))
            λ w _.
              Safe-bind (λ f. length f ≡ length st.filled) (IsSuccessor st)
                (unwrap (modify st.filled j (λ f. fl.add f w))) _
                (Safe-unwrap _ (λ f. length f ≡ length st.filled)
                  (modify st.filled j (λ f. fl.add f w))
                  (modify-is_some st.filled j _ (omega (arith, shaped.filled_length)))
                  (λ f e. length-modify st.filled f j _ e))
                λ f ef. record {
                  shaped = record {
                    allocated_length = ea ∙ shaped.allocated_length;
                    filled_length = ef ∙ shaped.filled_length;
                    weights_length = shaped.weights_length;
                    remaining_bound =
                        remove-All (λ k. k < length st.bound) i st.remaining shaped.remaining_bound;
                  };
                  same_items = refl;
                  same_bound = refl;
                }

  store_row-Safe :
      (value : Variable → fl.F) (row i col : ℕ) (js : List ℕ) (st : State fl.F T)
      → IsShaped st
      → i < length st.bound
      → All (λ j. j < length st.items) js
      → Safe (IsSuccessor st) (store_row fl value row i col js st)
  unfolding store_row
  store_row-Safe value row i col [] st shaped hi h = IsSuccessor-refl st shaped
  store_row-Safe value row i col (j ∷ js) st shaped hi h =
      Safe-bind (IsSuccessor st) (IsSuccessor st) _ _ chosen λ next s.
        Safe-map (IsSuccessor next) (IsSuccessor st) (store_row fl value row i (suc col) js next)
          (λ last t. IsSuccessor-trans st next last s t)
          (store_row-Safe value row i (suc col) js next s.shaped (rw s.same_bound hi)
            (rw s.same_items h.1))
    where
      chosen :
          Safe
            (IsSuccessor st)
            (if fl.lt fl.half (value (Variable.y row col)) then assign fl st i j else ok st)
      chosen = elim (Bool-cases (fl.lt fl.half (value (Variable.y row col)))) [
        | inl t ↦ rw t (assign-Safe st i j shaped hi h.0)
        | inr f ↦ rw f (IsSuccessor-refl st shaped)
      ]

  store_rows-Safe :
      (value : Variable → fl.F) (targets : List ℕ) (row : ℕ) (is : List ℕ) (st : State fl.F T)
      → IsShaped st
      → All (λ i. i < length st.bound) is
      → All (λ j. j < length st.items) targets
      → Safe (IsSuccessor st) (store_rows fl value targets row is st)
  unfolding store_rows
  store_rows-Safe value targets row [] st shaped hi h = IsSuccessor-refl st shaped
  store_rows-Safe value targets row (i ∷ is) st shaped hi h =
      Safe-bind (IsSuccessor st) (IsSuccessor st) (store_row fl value row i 0 targets st) _
        (store_row-Safe value row i 0 targets st shaped hi.0 h)
        λ next s.
          Safe-map (IsSuccessor next) (IsSuccessor st)
            (store_rows fl value targets (suc row) is next)
            (λ last t. IsSuccessor-trans st next last s t)
            (store_rows-Safe value targets (suc row) is next s.shaped (rw s.same_bound hi.1)
              (rw s.same_items h))

  -- Whatever the solver answers, a round over well-shaped data does not panic, and its state is
  -- well shaped over the same items and bindings.
  pub solve-Safe :
      (solver : Problem fl.F → Solution fl.F) (s : Solver) (st : State fl.F T)
      → IsShaped st
      → All (IsTarget st.items s.use_max) s.targets
      → Safe (λ r. IsSuccessor st r.1) (solve fl solver s st)
  unfolding solve
  solve-Safe solver s st shaped h =
      elim (Bool-cases (length st.remaining == 0 || length s.targets == 0)) [
        | inl stop ↦ rw stop (IsSuccessor-refl st shaped)
        | inr go ↦ rw go (
            Safe-bind (λ _. Unit) (λ r. IsSuccessor st r.1) (build_problem fl s st) _
              (build_problem-Safe fl st shaped s h) (λ p _. stored (solver p)))
      ]
    where
      stored : (sol : Solution fl.F) → Safe (λ r. IsSuccessor st r.1) (store_solution fl s st sol)
      stored (unsolved infeasible) = unfold store_solution in IsSuccessor-refl st shaped
      stored (unsolved unbounded) = unfold store_solution in tt
      stored (unsolved (other text)) = unfold store_solution in tt
      stored (solved value) =
          unfold store_solution in
          Safe-bind (IsSuccessor st) (λ r. IsSuccessor st r.1)
            (store_rows fl value s.targets 0 st.remaining st) _
            (store_rows-Safe value s.targets 0 st.remaining st shaped shaped.remaining_bound (
              All-map (IsTarget st.items s.use_max) (λ j. j < length st.items) s.targets
                (λ j t. t.in_range) h))
            (λ next k. k)
