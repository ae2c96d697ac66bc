-- ===== src/Spectrum/Milp/Round.antt =====
-- A round with an honest solver leaves every resource in as many places.
use eecs_k8s.Prelude.{ℕ, ◌≤◌, ◌≡◌, refl, List, [], ◌++◌, ◌==◌, ◌||◌, length, arith, if◌then◌else◌}
use mathlib.Core.List.{append_assoc}
use eecs_k8s.Prelude.Set.{count}
use eecs_k8s.Prelude.Panic.{ok, Yields, Yields-bind, Yields-if, Yields-any}
use eecs_k8s.Spectrum.Float.{Float, FloatLaws}
use eecs_k8s.Spectrum.Item.{State}
use eecs_k8s.Spectrum.Milp.{
  Variable, Constraint, Problem, Solution, Solver, solved, unsolved, infeasible, unbounded, other,
  row_constraints, objective, loads, bound_constraints, store_rows, store_solution, build_problem,
  solve,
}
use eecs_k8s.Spectrum.Milp.Rows.{Solves, row_constraints-picks}
use eecs_k8s.Spectrum.Milp.Store.{Kept, Kept-refl, store_rows-Kept}

-- Every solution meets what it was asked for.
abbrev pub IsHonest : (fl : Float) → (Problem fl.F → Solution fl.F) → Type 0
IsHonest fl solver =
    (p : Problem fl.F) (value : Variable → fl.F) → solver p ≡ solved value → Solves fl p value

module _ (fl : Float) {T : Type 0} (s : Solver) (st : State fl.F T) where
  -- The constraints (a) come first.
  record HasRows (p : Problem fl.F) : Type 0 where
    rest : List (Constraint fl.F)
    rows_first :
        p.constraints
        ≡ row_constraints fl s.use_all (length s.targets) 0 (length st.remaining) ++ rest

  build_problem-HasRows : Yields HasRows (build_problem fl s st)
  unfolding build_problem
  build_problem-HasRows =
      Yields-bind (λ _. Unit) HasRows (loads fl st 0 s.targets) _ (Yields-any _)
        λ ls _.
          Yields-bind (λ _. Unit) HasRows
            (if s.use_min || s.use_max
              then bound_constraints fl st s.use_min s.use_max s.targets ls
              else ok [])
            _ (Yields-any _)
            λ bounds _.
              Yields-bind (λ _. Unit) HasRows (objective fl st s.direction s.targets ls) _
                (Yields-any _)
                λ goal _. record {
                  rest = bounds ++ goal.1;
                  rows_first =
                      append_assoc
                        (row_constraints fl s.use_all (length s.targets) 0 (length st.remaining))
                        bounds goal.1;
                }

  module _ (laws : FloatLaws fl) (one : (k : ℕ) → count k st.remaining ≤ 1) where
    store_solution-Kept :
        (p : Problem fl.F) (sol : Solution fl.F)
        → HasRows p
        → ((value : Variable → fl.F) → sol ≡ solved value → Solves fl p value)
        → Yields (λ r. Kept st r.1) (store_solution fl s st sol)
    unfolding store_solution
    store_solution-Kept p (unsolved infeasible) h honest = Kept-refl st
    store_solution-Kept p (unsolved unbounded) h honest = tt
    store_solution-Kept p (unsolved (other text)) h honest = tt
    store_solution-Kept p (solved value) h honest =
        Yields-bind (Kept st) (λ r. Kept st r.1) (store_rows fl value s.targets 0 st.remaining st) _
          (store_rows-Kept fl value s.targets 0 st.remaining st (λ k. omega arith) one
            (row_constraints-picks fl laws value solves.nonneg s.use_all (length s.targets) 0
              (length st.remaining) h.rest (rw h.rows_first at solves.meets)))
          (λ next k. k)
      where
        solves : Solves fl p value
        solves = honest value refl

    pub solve-Kept :
        (solver : Problem fl.F → Solution fl.F)
        → IsHonest fl solver
        → Yields (λ r. Kept st r.1) (solve fl solver s st)
    unfolding solve
    solve-Kept solver honest =
        Yields-if (λ r. Kept st r.1) (length st.remaining == 0 || length s.targets == 0) _ _
          (λ _. Kept-refl st)
          λ _.
            Yields-bind HasRows (λ r. Kept st r.1) (build_problem fl s st) _ build_problem-HasRows
              (λ p h. store_solution-Kept p (solver p) h (honest p))
