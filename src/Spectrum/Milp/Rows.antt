-- ===== src/Spectrum/Milp/Rows.antt =====
-- The constraints (a): a solution that meets them gives a resource to one item at most.
use eecs_k8s.Prelude.{
  clash, add_zero, add_suc, ℕ, zero, suc, ◌+◌, ◌<◌, ◌≤◌, ◌≡◌, refl, Bool, true, false, inl, inr,
  Bool-cases, List, ◌++◌, All, arith, if◌then◌else◌,
}
use eecs_k8s.Spectrum.Float.{Float, FloatLaws}
use eecs_k8s.Spectrum.Milp.{
  Variable, Expression, Constraint, Problem, y, const, var, plus, minus, scaled, over, eq_to, le_to,
  ge_to, row_sum, row_constraint, row_constraints,
}

module _ (fl : Float) where
  abbrev pub eval : (Variable → fl.F) → Expression fl.F → fl.F
  eval value (const c) = c
  eval value (var x) = value x
  eval value (plus a b) = fl.add (eval value a) (eval value b)
  eval value (minus a b) = fl.sub (eval value a) (eval value b)
  eval value (scaled c x) = fl.mul c (value x)
  eval value (over a c) = fl.div (eval value a) c

  abbrev pub Meets : (Variable → fl.F) → Constraint fl.F → Type 0
  Meets value (eq_to a b) = eval value a ≡ eval value b
  Meets value (le_to a b) = fl.le (eval value a) (eval value b) ≡ true
  Meets value (ge_to a b) = fl.le (eval value b) (eval value a) ≡ true

  -- What a solver promises: its solution meets the constraints, and a binary variable is not
  -- negative.
  pub record Solves (p : Problem fl.F) (value : Variable → fl.F) : Type 0 where
    pub meets : All (Meets value) p.constraints
    pub nonneg : (row col : ℕ) → fl.le fl.zero (value (y row col)) ≡ true

  -- How many entries of a row are above a half, over `n` columns from `col` on.
  abbrev pub picks : (Variable → fl.F) → ℕ → ℕ → ℕ → ℕ
  picks value row col zero = 0
  picks value row col (suc n) =
      (if fl.lt fl.half (value (y row col)) then 1 else 0) + picks value row (suc col) n

  module _ (laws : FloatLaws fl) (value : Variable → fl.F)
      (nonneg : (row col : ℕ) → fl.le fl.zero (value (y row col)) ≡ true) where
    row_sum-ge :
        (row col n : ℕ) (acc : Expression fl.F)
        → fl.le fl.zero (eval value acc) ≡ true
        → fl.le (eval value acc) (eval value (row_sum fl row col n acc)) ≡ true
    unfolding row_sum
    row_sum-ge row col zero acc h = laws.le_refl _
    row_sum-ge row col (suc n) acc h =
        laws.le_trans _ _ _ step (row_sum-ge row (suc col) n _ (laws.le_trans _ _ _ h step))
      where
        step : fl.le (eval value acc) (fl.add (eval value acc) (value (y row col))) ≡ true
        step = laws.add_nonneg _ _ h (nonneg row col)

    -- Beside an entry above a half there is no other.
    picks-none :
        (row col n : ℕ) (acc : Expression fl.F) (b : fl.F)
        → fl.lt fl.half b ≡ true
        → fl.le b (eval value acc) ≡ true
        → fl.le fl.zero (eval value acc) ≡ true
        → fl.le (eval value (row_sum fl row col n acc)) fl.one ≡ true
        → picks value row col n ≡ 0
    unfolding row_sum
    picks-none row col zero acc b hb below h limit = refl
    picks-none row col (suc n) acc b hb below h limit =
        elim (Bool-cases (fl.lt fl.half (value (y row col)))) [
          | inl high ↦
              clash (laws.le_trans _ _ _ (row_sum-ge row (suc col) n _ next) limit)
                (laws.over_half (eval value acc) b (value (y row col)) h hb high below)
          | inr low ↦ rw low (
              omega (
                arith,
                picks-none row (suc col) n _ b hb (laws.le_trans _ _ _ below step) next limit,
              ))
        ]
      where
        step : fl.le (eval value acc) (fl.add (eval value acc) (value (y row col))) ≡ true
        step = laws.add_nonneg _ _ h (nonneg row col)

        next : fl.le fl.zero (fl.add (eval value acc) (value (y row col))) ≡ true
        next = laws.le_trans _ _ _ h step

    picks-once :
        (row col n : ℕ) (acc : Expression fl.F)
        → fl.le fl.zero (eval value acc) ≡ true
        → fl.le (eval value (row_sum fl row col n acc)) fl.one ≡ true
        → picks value row col n ≤ 1
    unfolding row_sum
    picks-once row col zero acc h limit = omega arith
    picks-once row col (suc n) acc h limit = elim (Bool-cases (fl.lt fl.half (value (y row col)))) [
      | inl high ↦ rw high (
          omega (
            arith,
            picks-none row (suc col) n _ (value (y row col)) high
                (laws.add_nonneg_right _ _ h (nonneg row col)) next limit,
          ))
      | inr low ↦ rw low (omega (arith, picks-once row (suc col) n _ next limit))
    ]
      where
        next : fl.le fl.zero (fl.add (eval value acc) (value (y row col))) ≡ true
        next = laws.le_trans _ _ _ h (laws.add_nonneg _ _ h (nonneg row col))

    row_constraint-picks :
        (use_all : Bool) (cols row : ℕ)
        → Meets value (row_constraint fl use_all cols row)
        → picks value row 0 cols ≤ 1
    unfolding row_constraint
    row_constraint-picks true cols row h =
        picks-once row 0 cols (const fl.zero) (laws.le_refl fl.zero) (rw h (laws.le_refl fl.one))
    row_constraint-picks false cols row h =
        picks-once row 0 cols (const fl.zero) (laws.le_refl fl.zero) h

    -- Every row of a solved problem has one entry above a half at most.
    pub row_constraints-picks :
        (use_all : Bool) (cols row n : ℕ) (rest : List (Constraint fl.F))
        → All (Meets value) (row_constraints fl use_all cols row n ++ rest)
        → (k : ℕ) → k < n
        → picks value (row + k) 0 cols ≤ 1
    unfolding row_constraints
    row_constraints-picks use_all cols row zero rest h k lt = absurd (omega arith)
    row_constraints-picks use_all cols row (suc n) rest h zero lt =
        rw (add_zero row) (row_constraint-picks use_all cols row h.0)
    row_constraints-picks use_all cols row (suc n) rest h (suc k) lt =
        rw (add_suc row k) (row_constraints-picks use_all cols (suc row) n rest h.1 k (omega arith))
