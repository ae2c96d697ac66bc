-- ===== src/Spectrum/Milp.antt =====
-- crates/openark-spectrum-scheduler/src/solvers/milp.rs: one round of the scheduler as an integer
-- program. The solver (good_lp with CBC) is a parameter; the program that it is given is data.
pub mod Rows
pub mod Store
pub mod Round
pub mod Shape
pub mod Build
pub mod Total
use eecs_k8s.Prelude.{
  ℕ, zero, suc, ◌+◌, ◌-◌, String, Bool, true, false, ◌&&◌, ◌||◌, Option, none, some, List, [], ◌∷◌,
  ◌++◌, ◌==◌, length, get_elem?, if◌then◌else◌,
}
use eecs_k8s.Prelude.Panic.{Result, ok, err, panic, unwrap, ◌>>=◌, ◌>>◌}
use eecs_k8s.Prelude.Set.{remove, modify}
use eecs_k8s.Spectrum.Float.{Float}
use eecs_k8s.Spectrum.Schema.{PoolResource}
use eecs_k8s.Spectrum.Item.{Item, State}

pub data ResolutionError : Type 0 where
  unbounded infeasible : ResolutionError
  other : String → ResolutionError

pub data ObjectiveDirection : Type 0 where
  maximisation minimisation : ObjectiveDirection

-- The variables: `y[row][col]`, which is binary, and the deviation `d`, which is at least 0.
pub data Variable : Type 0 where
  y : ℕ → ℕ → Variable
  deviation : Variable

-- `good_lp::Expression`, by the calls that build it.
pub data Expression (F : Type 0) : Type 0 where
  const : F → Expression F
  var : Variable → Expression F
  plus minus : Expression F → Expression F → Expression F
  scaled : F → Variable → Expression F
  over : Expression F → F → Expression F

pub data Constraint (F : Type 0) : Type 0 where
  eq_to le_to ge_to : Expression F → Expression F → Constraint F

pub record Problem (F : Type 0) : Type 0 where
  pub rows : ℕ
  pub cols : ℕ
  pub direction : ObjectiveDirection
  pub objective : Expression F
  pub constraints : List (Constraint F)

pub data Solution (F : Type 0) : Type 0 where
  solved : (Variable → F) → Solution F
  unsolved : ResolutionError → Solution F

pub record Solver : Type 0 where
  pub direction : ObjectiveDirection
  pub targets : List ℕ
  pub use_all : Bool
  pub use_max : Bool
  pub use_min : Bool

abbrev pub Try : Type 0 → Type 0
Try A = Result ResolutionError A

module _ (fl : Float) where
  open fl use {F}

  module _ {T : Type 0} where
    unfoldable pub penalty : State F T → ℕ → ℕ → Try F
    penalty st i j = do
      b ← unwrap (get_elem? st.bound i)
      elim b.claim [
        | none ↦ ok fl.zero
        | some j2 ↦
            if j == j2
            then ok fl.zero
            else do it ← unwrap (get_elem? st.items j); ok it.resource.penalty
      ]

    -- The load of one column, over the rows from `row` on.
    unfoldable pub load : State F T → ℕ → ℕ → ℕ → List ℕ → Expression F → Try (Expression F)
    unfolding penalty
    load st col j row [] acc = ok acc
    load st col j row (i ∷ is) acc = do
      p ← penalty st i j
      w ← unwrap (get_elem? st.weights i)
      load st col j (suc row) is (plus acc (scaled (fl.add w p) (y row col)))

    -- The loads of the columns from `col` on.
    unfoldable pub loads : State F T → ℕ → List ℕ → Try (List (Expression F))
    unfolding load
    loads st col [] = ok []
    loads st col (j ∷ js) = do
      l ← load st col j 0 st.remaining (const fl.zero)
      ls ← loads st (suc col) js
      ok (l ∷ ls)

  -- (a) Each resource is bound to one item. The sum goes over the columns from `col` on.
  unfoldable pub row_sum : ℕ → ℕ → ℕ → Expression F → Expression F
  row_sum row col zero acc = acc
  row_sum row col (suc n) acc = row_sum row (suc col) n (plus acc (var (y row col)))

  unfoldable pub row_constraint : Bool → ℕ → ℕ → Constraint F
  unfolding row_sum
  row_constraint use_all cols row =
      let total = row_sum row 0 cols (const fl.zero) in
      if use_all then eq_to total (const fl.one) else le_to total (const fl.one)

  unfoldable pub row_constraints : Bool → ℕ → ℕ → ℕ → List (Constraint F)
  unfolding row_constraint
  row_constraints use_all cols row zero = []
  row_constraints use_all cols row (suc n) =
      row_constraint use_all cols row ∷ row_constraints use_all cols (suc row) n

  -- (b) The bounds of one item.
  unfoldable pub min_constraint : Bool → Option F → Expression F → List (Constraint F)
  min_constraint false min load_j = []
  min_constraint true none load_j = []
  min_constraint true (some min) load_j = ge_to load_j (const min) ∷ []

  unfoldable pub max_constraint :
      Bool → Option F → Option F → Expression F → Try (List (Constraint F))
  max_constraint false min max load_j = ok []
  max_constraint true min (some max) load_j = ok (le_to load_j (const max) ∷ [])
  max_constraint true min none load_j = do m ← unwrap min; ok (eq_to load_j (const m) ∷ [])

  module _ {T : Type 0} where
    unfoldable pub bound_constraints :
        State F T → Bool → Bool → List ℕ → List (Expression F) → Try (List (Constraint F))
    unfolding min_constraint max_constraint
    bound_constraints st use_min use_max [] ls = ok []
    bound_constraints st use_min use_max (j ∷ js) [] = panic
    bound_constraints st use_min use_max (j ∷ js) (l ∷ ls) = do
      f ← unwrap (get_elem? st.filled j)
      it ← unwrap (get_elem? st.items j)
      upper ← max_constraint use_max it.resource.min it.resource.max (plus (const f) l)
      rest ← bound_constraints st use_min use_max js ls
      ok (min_constraint use_min it.resource.min (plus (const f) l) ++ upper ++ rest)

    -- (c) The load of an item per its weight, over the columns.
    unfoldable pub shares : State F T → List ℕ → List (Expression F) → Try (List (Expression F))
    shares st [] ls = ok []
    shares st (j ∷ js) [] = panic
    shares st (j ∷ js) (l ∷ ls) = do
      f ← unwrap (get_elem? st.filled j)
      it ← unwrap (get_elem? st.items j)
      rest ← shares st js ls
      ok (over (plus (const f) l) (fl.of_nat it.resource.weight) ∷ rest)

  unfoldable pub deviation_row : Expression F → List (Expression F) → List (Constraint F)
  deviation_row e [] = []
  deviation_row e (x ∷ xs) =
      le_to (minus e x) (var deviation) ∷ le_to (minus x e) (var deviation) ∷ deviation_row e xs

  unfoldable pub deviation_rows : List (Expression F) → List (Expression F) → List (Constraint F)
  unfolding deviation_row
  deviation_rows [] all = []
  deviation_rows (e ∷ es) all = deviation_row e all ++ deviation_rows es all

  unfoldable pub sum_loads : List (Expression F) → Expression F → Expression F
  sum_loads [] acc = acc
  sum_loads (l ∷ ls) acc = sum_loads ls (plus acc l)

  module _ {T : Type 0} where
    -- The objective, and the constraints that it adds.
    unfoldable pub objective :
        State F T
        → ObjectiveDirection
        → List ℕ
        → List (Expression F)
        → Try (Expression F × List (Constraint F))
    unfolding sum_loads shares deviation_rows
    objective st maximisation targets ls = ok (sum_loads ls (const fl.zero), [])
    objective st minimisation targets ls = do
      es ← shares st targets ls
      ok (var deviation, deviation_rows es es)

    unfoldable pub build_problem : Solver → State F T → Try (Problem F)
    unfolding loads row_constraints bound_constraints objective
    build_problem s st = do
      ls ← loads st 0 s.targets
      bounds ←
          (if s.use_min || s.use_max
            then bound_constraints st s.use_min s.use_max s.targets ls
            else ok [])
      goal ← objective st s.direction s.targets ls
      ok (record {
        rows = length st.remaining;
        cols = length s.targets;
        direction = s.direction;
        objective = goal.0;
        constraints =
            row_constraints s.use_all (length s.targets) 0 (length st.remaining)
            ++ bounds
            ++ goal.1;
      })

    -- One entry of the solution: the resource `i` goes to the item `j`.
    unfoldable pub assign : State F T → ℕ → ℕ → Try (State F T)
    assign st i j = do
      allocated ← unwrap (modify st.allocated j (λ xs. xs ++ i ∷ []))
      w ← unwrap (get_elem? st.weights i)
      filled ← unwrap (modify st.filled j (λ f. fl.add f w))
      ok (record st { allocated = allocated; filled = filled; remaining = remove i st.remaining })

    unfoldable pub store_row : (Variable → F) → ℕ → ℕ → ℕ → List ℕ → State F T → Try (State F T)
    unfolding assign
    store_row value row i col [] st = ok st
    store_row value row i col (j ∷ js) st = do
      next ← (if fl.lt fl.half (value (y row col)) then assign st i j else ok st)
      store_row value row i (suc col) js next

    -- The rows are those of the resources that remained before.
    unfoldable pub store_rows : (Variable → F) → List ℕ → ℕ → List ℕ → State F T → Try (State F T)
    unfolding store_row
    store_rows value targets row [] st = ok st
    store_rows value targets row (i ∷ is) st = do
      next ← store_row value row i 0 targets st
      store_rows value targets (suc row) is next

    unfoldable pub store_solution : Solver → State F T → Solution F → Try (Bool × State F T)
    unfolding store_rows
    store_solution s st (unsolved infeasible) = ok (false, st)
    store_solution s st (unsolved e) = err e
    store_solution s st (solved value) = do
      next ← store_rows value s.targets 0 st.remaining st
      ok (true, next)

    -- Whether the round was solved, and the new state.
    unfoldable pub solve : (Problem F → Solution F) → Solver → State F T → Try (Bool × State F T)
    unfolding build_problem store_solution
    solve solver s st =
        if length st.remaining == 0 || length s.targets == 0
        then ok (false, st)
        else do p ← build_problem s st; store_solution s st (solver p)
