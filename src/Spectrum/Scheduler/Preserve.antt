-- ===== src/Spectrum/Scheduler/Preserve.antt =====
-- What every assignment of a resource keeps, the whole allocation keeps.
use eecs_k8s.Prelude.{suc, ℕ, ◌||◌, ◌==◌, List, [], ◌∷◌, length}
use eecs_k8s.Prelude.Int.{ℤ}
use eecs_k8s.Prelude.Panic.{◌>>=◌, ok, Yields, Yields-bind, Yields-if, Yields-map, Yields-any}
use eecs_k8s.Spectrum.Float.{Float}
use eecs_k8s.Spectrum.Item.{State}
use eecs_k8s.Spectrum.Milp.{
  Try, Variable, Problem, Solution, Solver, y, solved, unsolved, infeasible, unbounded, other,
  assign, store_row, store_rows, store_solution, build_problem, solve,
}
use eecs_k8s.Spectrum.Scheduler.{
  tier_solver, rest_solver, solve_tiers, solve_class, solve_rest, allocate, guaranteed, burstable,
  best_effort, priorities, build_tiers,
}

module _ (fl : Float) {T : Type 0} (R : State fl.F T → State fl.F T → Type 0)
    (stays : (st : State fl.F T) → R st st)
    (chains : (a b c : State fl.F T) → R a b → R b c → R a c)
    (assigns : (st : State fl.F T) (i j : ℕ) → Yields (R st) (assign fl st i j)) where
  then-R :
      (st : State fl.F T) (m : Try (State fl.F T)) (f : State fl.F T → Try (State fl.F T))
      → Yields (R st) m
      → ((next : State fl.F T) → Yields (R next) (f next))
      → Yields (R st) (m >>= f)
  then-R st m f h k =
      Yields-bind (R st) (R st) m f h
        (λ next r. Yields-map (R next) (R st) (f next) (λ last s. chains st next last r s) (k next))

  store_row-R :
      (value : Variable → fl.F) (row i col : ℕ) (js : List ℕ) (st : State fl.F T)
      → Yields (R st) (store_row fl value row i col js st)
  unfolding store_row
  store_row-R value row i col [] st = stays st
  store_row-R value row i col (j ∷ js) st =
      then-R st _ _
        (Yields-if (R st) (fl.lt fl.half (value (y row col))) (assign fl st i j) (ok st)
          (λ _. assigns st i j) (λ _. stays st))
        (λ next. store_row-R value row i (suc col) js next)

  store_rows-R :
      (value : Variable → fl.F) (targets : List ℕ) (row : ℕ) (is : List ℕ) (st : State fl.F T)
      → Yields (R st) (store_rows fl value targets row is st)
  unfolding store_rows
  store_rows-R value targets row [] st = stays st
  store_rows-R value targets row (i ∷ is) st =
      then-R st _ _ (store_row-R value row i 0 targets st)
        (λ next. store_rows-R value targets (suc row) is next)

  store_solution-R :
      (s : Solver) (st : State fl.F T) (sol : Solution fl.F)
      → Yields (λ r. R st r.1) (store_solution fl s st sol)
  unfolding store_solution
  store_solution-R s st (unsolved infeasible) = stays st
  store_solution-R s st (unsolved unbounded) = tt
  store_solution-R s st (unsolved (other text)) = tt
  store_solution-R s st (solved value) =
      Yields-bind (R st) (λ r. R st r.1) (store_rows fl value s.targets 0 st.remaining st) _
        (store_rows-R value s.targets 0 st.remaining st) (λ next r. r)

  module _ (solver : Problem fl.F → Solution fl.F) where
    solve-R : (s : Solver) (st : State fl.F T) → Yields (λ r. R st r.1) (solve fl solver s st)
    unfolding solve
    solve-R s st =
        Yields-if (λ r. R st r.1) (length st.remaining == 0 || length s.targets == 0) _ _
          (λ _. stays st)
          λ _.
            Yields-bind (λ _. Unit) (λ r. R st r.1) (build_problem fl s st) _ (Yields-any _)
              (λ p _. store_solution-R s st (solver p))

    solve_tiers-R :
        (tiers : List (List ℕ)) (st : State fl.F T) → Yields (R st) (solve_tiers fl solver tiers st)
    unfolding solve_tiers
    solve_tiers-R [] st = stays st
    solve_tiers-R (js ∷ tiers) st =
        Yields-bind (λ r. R st r.1) (R st) (solve fl solver (tier_solver js) st) _
          (solve-R (tier_solver js) st)
          λ r k.
            Yields-if (R st) r.0 _ _
              (λ _.
                Yields-map (R r.1) (R st) (solve_tiers fl solver tiers r.1)
                  (λ last t. chains st r.1 last k t) (solve_tiers-R tiers r.1))
              (λ _. k)

    solve_class-R :
        (priority : List ℤ) (targets : List ℕ) (st : State fl.F T)
        → Yields (R st) (solve_class fl solver priority targets st)
    unfolding solve_class
    solve_class-R priority targets st =
        Yields-bind (λ _. Unit) (R st) (build_tiers priority targets) _ (Yields-any _)
          (λ tiers _. solve_tiers-R tiers st)

    solve_rest-R :
        (targets : List ℕ) (st : State fl.F T) → Yields (R st) (solve_rest fl solver targets st)
    unfolding solve_rest
    solve_rest-R targets st =
        Yields-if (R st) (length st.remaining == 0 || length targets == 0) _ _ (λ _. stays st)
          (λ _.
            Yields-bind (λ r. R st r.1) (R st) (solve fl solver (rest_solver targets) st) _
              (solve-R (rest_solver targets) st) (λ r k. k))

    pub allocate-R : (st : State fl.F T) → Yields (R st) (allocate fl solver st)
    unfolding allocate
    allocate-R st =
        then-R st _ _ (solve_class-R (priorities fl st.items) (guaranteed fl 0 st.items) st) λ st1.
          then-R st1 _ _ (solve_class-R (priorities fl st.items) (burstable fl 0 st.items) st1)
            (λ st2. solve_rest-R (best_effort fl 0 st.items) st2)
