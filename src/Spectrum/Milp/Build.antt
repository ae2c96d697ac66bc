-- ===== src/Spectrum/Milp/Build.antt =====
-- The linear program of a round is built without a panic: every index is in range, and every item
-- of a tier has the bound that the round reads.
use eecs_k8s.Prelude.{
  inr, inl, Bool-cases, ◌||◌, All-map, ℕ, suc, ◌<◌, ◌≡◌, refl, Bool, true, Option, none, some, List,
  [], ◌∷◌, ◌==◌, All, arith, length, get_elem?, if◌then◌else◌,
}
use eecs_k8s.Prelude.Panic.{ok, unwrap, ◌>>=◌, Safe, Safe-bind, Safe-unwrap}
use eecs_k8s.Prelude.Set.{get_elem?-is_some}
use eecs_k8s.Spectrum.Float.{Float}
use eecs_k8s.Spectrum.Item.{Item, State}
use eecs_k8s.Spectrum.Milp.{
  minimisation, maximisation, Solver, ObjectiveDirection, objective, build_problem,
  bound_constraints, max_constraint, shares, Expression, Try, penalty, load, loads,
}
use eecs_k8s.Spectrum.Milp.Shape.{IsShaped, IsTarget, has_bound}

module _ (fl : Float) {T : Type 0} (st : State fl.F T) (shaped : IsShaped st) where
  penalty-Safe :
      (i j : ℕ) → i < length st.bound → j < length st.items → Safe (λ _. Unit) (penalty fl st i j)
  unfolding penalty
  penalty-Safe i j hi hj =
      Safe-bind (λ _. Unit) (λ _. Unit) (unwrap (get_elem? st.bound i)) _
        (Safe-unwrap _ (λ _. Unit) (get_elem? st.bound i) (get_elem?-is_some st.bound i hi)
          (λ _ _. tt))
        (λ b _. by_claim b.claim)
    where
      by_claim :
          (claim : Option ℕ)
          → Safe
              (λ _. Unit)
              (elim claim as (λ _. Try fl.F) [
                | none ↦ ok fl.zero
                | some j2 ↦
                    if j == j2
                    then ok fl.zero
                    else (unwrap (get_elem? st.items j) >>= λ it. ok it.resource.penalty)
              ])
      by_claim none = tt
      by_claim (some j2) = ground (arith, get_elem?-is_some st.items j hj)

  load-Safe :
      (col j row : ℕ) (is : List ℕ) (acc : Expression fl.F)
      → j < length st.items
      → All (λ i. i < length st.bound) is
      → Safe (λ _. Unit) (load fl st col j row is acc)
  unfolding load
  load-Safe col j row [] acc hj h = tt
  load-Safe col j row (i ∷ is) acc hj h =
      Safe-bind (λ _. Unit) (λ _. Unit) (penalty fl st i j) _ (penalty-Safe i j h.0 hj)
        λ p _.
          Safe-bind (λ _. Unit) (λ _. Unit) (unwrap (get_elem? st.weights i)) _
            (Safe-unwrap _ (λ _. Unit) (get_elem? st.weights i)
              (get_elem?-is_some st.weights i (omega (arith, shaped.weights_length))) (λ _ _. tt))
            (λ w _. load-Safe col j (suc row) is _ hj h.1)

  -- As many loads as targets.
  loads-Safe :
      (col : ℕ) (js : List ℕ)
      → All (λ j. j < length st.items) js
      → Safe (λ ls. length ls ≡ length js) (loads fl st col js)
  unfolding loads
  loads-Safe col [] h = refl
  loads-Safe col (j ∷ js) h =
      Safe-bind (λ _. Unit) (λ ls. length ls ≡ length (j ∷ js)) (load fl st col j 0 st.remaining _)
        _ (load-Safe col j 0 st.remaining _ h.0 shaped.remaining_bound)
        λ l _.
          Safe-bind (λ ls. length ls ≡ length js) (λ ls. length ls ≡ length (j ∷ js))
            (loads fl st (suc col) js) _ (loads-Safe (suc col) js h.1) (λ ls e. omega (arith, e))

  max_constraint-Safe :
      (use_max : Bool) (it : Item fl.F T) (e : Expression fl.F)
      → (use_max ≡ true → has_bound (some it) ≡ true)
      → Safe (λ _. Unit) (max_constraint fl use_max it.resource.min it.resource.max e)
  unfolding max_constraint
  max_constraint-Safe use_max it e h = ground arith

  bound_constraints-Safe :
      (use_min use_max : Bool) (js : List ℕ) (ls : List (Expression fl.F))
      → All (IsTarget st.items use_max) js
      → length ls ≡ length js
      → Safe (λ _. Unit) (bound_constraints fl st use_min use_max js ls)
  unfolding bound_constraints
  bound_constraints-Safe use_min use_max [] ls h e = tt
  bound_constraints-Safe use_min use_max (j ∷ js) [] h e = omega (arith, e)
  bound_constraints-Safe use_min use_max (j ∷ js) (l ∷ ls) h e =
      Safe-bind (λ _. Unit) (λ _. Unit) (unwrap (get_elem? st.filled j)) _
        (Safe-unwrap _ (λ _. Unit) (get_elem? st.filled j)
          (get_elem?-is_some st.filled j (omega (arith, h.0.in_range, shaped.filled_length)))
          (λ _ _. tt))
        λ f _.
          Safe-bind (λ it. get_elem? st.items j ≡ some it) (λ _. Unit)
            (unwrap (get_elem? st.items j)) _
            (Safe-unwrap _ (λ it. get_elem? st.items j ≡ some it) (get_elem? st.items j)
              (get_elem?-is_some st.items j h.0.in_range) (λ _ q. q))
            λ it q.
              Safe-bind (λ _. Unit) (λ _. Unit) (max_constraint fl use_max _ _ _) _
                (max_constraint-Safe use_max it _ (λ u. rw q at (h.0.bounded u)))
                λ upper _.
                  Safe-bind (λ _. Unit) (λ _. Unit) (bound_constraints fl st use_min use_max js ls)
                    _ (bound_constraints-Safe use_min use_max js ls h.1 (omega (arith, e)))
                    (λ _ _. tt)

  shares-Safe :
      (js : List ℕ) (ls : List (Expression fl.F))
      → All (λ j. j < length st.items) js
      → length ls ≡ length js
      → Safe (λ _. Unit) (shares fl st js ls)
  unfolding shares
  shares-Safe [] ls h e = tt
  shares-Safe (j ∷ js) [] h e = omega (arith, e)
  shares-Safe (j ∷ js) (l ∷ ls) h e =
      Safe-bind (λ _. Unit) (λ _. Unit) (unwrap (get_elem? st.filled j)) _
        (Safe-unwrap _ (λ _. Unit) (get_elem? st.filled j)
          (get_elem?-is_some st.filled j (omega (arith, h.0, shaped.filled_length))) (λ _ _. tt))
        λ f _.
          Safe-bind (λ _. Unit) (λ _. Unit) (unwrap (get_elem? st.items j)) _
            (Safe-unwrap _ (λ _. Unit) (get_elem? st.items j) (get_elem?-is_some st.items j h.0)
              (λ _ _. tt))
            λ it _.
              Safe-bind (λ _. Unit) (λ _. Unit) (shares fl st js ls) _
                (shares-Safe js ls h.1 (omega (arith, e))) (λ _ _. tt)

  objective-Safe :
      (d : ObjectiveDirection) (js : List ℕ) (ls : List (Expression fl.F))
      → All (λ j. j < length st.items) js
      → length ls ≡ length js
      → Safe (λ _. Unit) (objective fl st d js ls)
  unfolding objective
  objective-Safe maximisation js ls h e = tt
  objective-Safe minimisation js ls h e =
      Safe-bind (λ _. Unit) (λ _. Unit) (shares fl st js ls) _ (shares-Safe js ls h e) (λ _ _. tt)

  pub build_problem-Safe :
      (s : Solver)
      → All (IsTarget st.items s.use_max) s.targets
      → Safe (λ _. Unit) (build_problem fl s st)
  unfolding build_problem
  build_problem-Safe s h =
      Safe-bind (λ ls. length ls ≡ length s.targets) (λ _. Unit) (loads fl st 0 s.targets) _
        (loads-Safe 0 s.targets in_range)
        λ ls e.
          Safe-bind (λ _. Unit) (λ _. Unit) _ _ (bounds ls e)
            λ b _.
              Safe-bind (λ _. Unit) (λ _. Unit) (objective fl st s.direction s.targets ls) _
                (objective-Safe s.direction s.targets ls in_range e) (λ _ _. tt)
    where
      in_range : All (λ j. j < length st.items) s.targets
      in_range =
          All-map (IsTarget st.items s.use_max) (λ j. j < length st.items) s.targets
            (λ j t. t.in_range) h

      bounds :
          (ls : List (Expression fl.F))
          → length ls ≡ length s.targets
          → Safe
              (λ _. Unit)
              (if s.use_min || s.use_max
                then bound_constraints fl st s.use_min s.use_max s.targets ls
                else ok [])
      bounds ls e = elim (Bool-cases (s.use_min || s.use_max)) [
        | inl t ↦ rw t (bound_constraints-Safe s.use_min s.use_max s.targets ls h e)
        | inr f ↦ rw f tt
      ]
