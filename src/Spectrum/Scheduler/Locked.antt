-- ===== src/Spectrum/Scheduler/Locked.antt =====
-- A resource that is being prepared stays with its claim.
use eecs_k8s.Prelude.{
  add_zero, add_suc, zero_add, some-injective, ap, ℕ, zero, suc, ◌+◌, ◌<◌, ◌≤◌, ◌≡◌, refl, Option,
  some, none, List, [], ◌∷◌, ◌++◌, ==-refl, get_elem?, arith, unwrap_or,
}
use eecs_k8s.Spectrum.Milp.{ResolutionError}
use eecs_k8s.Prelude.Set.{remove, count, count-append, modify}
use eecs_k8s.Prelude.Panic.{
  ◌>>=◌, ok, unwrap, Yields, Yields-bind, Yields-unwrap, Yields-map, Yields-any,
}
use eecs_k8s.Spectrum.Float.{Float}
use eecs_k8s.Spectrum.Schema.{PoolResource, CommitState, pending, preparing, running}
use eecs_k8s.Spectrum.Item.{State, Item, WeightedItems}
use eecs_k8s.Spectrum.Milp.{Problem, Solution, assign}
use eecs_k8s.Spectrum.Scheduler.{
  allocate, plan, prefill, prefill_one, lock, release, initial_state, fill_weights, weights_avg,
}
use eecs_k8s.Spectrum.Scheduler.Preserve.{allocate-R}

-- How often the item `j` has the resource `i`.
abbrev pub held : List (List ℕ) → ℕ → ℕ → ℕ
held allocated j i = count i (unwrap_or (get_elem? allocated j) [])

held-modify :
    (xss yss : List (List ℕ)) (j x k i : ℕ)
    → modify xss j (λ xs. xs ++ x ∷ []) ≡ some yss
    → held xss k i ≤ held yss k i
unfolding modify
held-modify [] yss j x k i h = cc
held-modify (xs ∷ xss) [] zero x k i h = cc
held-modify (xs ∷ xss) (ys ∷ yss) zero x zero i h = ground (arith, count-append i xs (x ∷ []))
held-modify (xs ∷ xss) (ys ∷ yss) zero x (suc k) i h = ground arith
held-modify (xs ∷ xss) [] (suc j) x k i h = ground arith
held-modify (xs ∷ xss) (ys ∷ yss) (suc j) x zero i h = ground arith
held-modify (xs ∷ xss) (ys ∷ yss) (suc j) x (suc k) i h =
    ground (arith, held-modify xss yss j x k i)

held-modify_self :
    (xss yss : List (List ℕ)) (j x : ℕ)
    → modify xss j (λ xs. xs ++ x ∷ []) ≡ some yss
    → 0 < held yss j x
unfolding modify count
held-modify_self [] yss j x h = cc
held-modify_self (xs ∷ xss) [] zero x h = cc
held-modify_self (xs ∷ xss) (ys ∷ yss) zero x h =
    ground (arith, count-append x xs (x ∷ []), ==-refl x)
held-modify_self (xs ∷ xss) [] (suc j) x h = ground arith
held-modify_self (xs ∷ xss) (ys ∷ yss) (suc j) x h = ground (arith, held-modify_self xss yss j x)

-- Nothing is taken from an item.
abbrev Grows : {F T : Type 0} → State F T → State F T → Type 0
Grows st next = (k i : ℕ) → held st.allocated k i ≤ held next.allocated k i

module _ (fl : Float) {T : Type 0} where
  pushes :
      (st : State fl.F T) (i j : ℕ) (g : List (List ℕ) → List fl.F → State fl.F T)
      → ((a : List (List ℕ)) (f : List fl.F) → (g a f).allocated ≡ a)
      → Yields {E = ResolutionError}
          (λ next. Grows st next × (0 < held next.allocated j i))
          (unwrap (modify st.allocated j (λ xs. xs ++ i ∷ [])) >>= λ a.
            unwrap (get_elem? st.weights i) >>= λ w.
            unwrap (modify st.filled j (λ f. fl.add f w)) >>= λ f. ok (g a f))
  pushes st i j g same =
      Yields-bind (λ a. modify st.allocated j (λ xs. xs ++ i ∷ []) ≡ some a)
        (λ next. Grows st next × (0 < held next.allocated j i))
        (unwrap (modify st.allocated j (λ xs. xs ++ i ∷ []))) _
        (Yields-unwrap _ _ (modify st.allocated j (λ xs. xs ++ i ∷ [])) (λ a e. e))
        λ a e.
          Yields-bind (λ _. Unit) (λ next. Grows st next × (0 < held next.allocated j i))
            (unwrap (get_elem? st.weights i)) _ (Yields-any _)
            λ w _.
              Yields-bind (λ _. Unit) (λ next. Grows st next × (0 < held next.allocated j i))
                (unwrap (modify st.filled j (λ f. fl.add f w))) _ (Yields-any _)
                λ f _. (
                  (λ k x. rw (same a f) (held-modify st.allocated a j i k x e)),
                  rw (same a f) (held-modify_self st.allocated a j i e),
                )

  assign-Grows : (st : State fl.F T) (i j : ℕ) → Yields (Grows st) (assign fl st i j)
  unfolding assign
  assign-Grows st i j =
      Yields-map _ (Grows st) _ (λ next h. h.0)
        (pushes st i j
          (λ a f. record st { allocated = a; filled = f; remaining = remove i st.remaining })
          (λ a f. refl))

  lock-Grows :
      (st : State fl.F T) (i j : ℕ)
      → Yields (λ next. Grows st next × (0 < held next.allocated j i)) (lock fl st i j)
  unfolding lock
  lock-Grows st i j = pushes st i j (λ a f. record st { allocated = a; filled = f }) (λ a f. refl)

  release-Grows : (st : State fl.F T) (i : ℕ) → Grows st (release fl st i)
  unfolding release
  release-Grows st i k x = omega arith

  prefill_one-Grows :
      (i : ℕ) (claim : Option ℕ) (state : CommitState) (st : State fl.F T)
      → Yields (Grows st) (prefill_one fl i claim state st)
  unfolding prefill_one
  prefill_one-Grows i (some j) preparing st =
      Yields-map _ (Grows st) (lock fl st i j) (λ next h. h.0) (lock-Grows st i j)
  prefill_one-Grows i none preparing st = release-Grows st i
  prefill_one-Grows i claim pending st = release-Grows st i
  prefill_one-Grows i claim running st = release-Grows st i

  prefill-Grows :
      (i : ℕ) (bs : List (PoolResource ℕ)) (st : State fl.F T)
      → Yields (Grows st) (prefill fl i bs st)
  unfolding prefill
  prefill-Grows i [] st = λ k x. omega arith
  prefill-Grows i (b ∷ bs) st =
      Yields-bind (Grows st) (Grows st) (prefill_one fl i b.claim b.state st) _
        (prefill_one-Grows i b.claim b.state st)
        λ next g.
          Yields-map (Grows next) (Grows st) (prefill fl (suc i) bs next)
            (λ last h k x. omega (arith, g k x, h k x)) (prefill-Grows (suc i) bs next)

  locks_here :
      (i : ℕ) (claim : Option ℕ) (state : CommitState) (st : State fl.F T) (j : ℕ)
      → claim ≡ some j
      → state ≡ preparing
      → Yields (λ next. 0 < held next.allocated j i) (prefill_one fl i claim state st)
  unfolding prefill_one
  locks_here i claim state st j c s =
      rw (c, s)
        (Yields-map _ (λ next. 0 < held next.allocated j i) (lock fl st i j) (λ next h. h.1)
          (lock-Grows st i j))

  -- The binding at the place `n` is locked.
  prefill-locks :
      (i : ℕ) (bs : List (PoolResource ℕ)) (st : State fl.F T) (n j : ℕ)
      → get_elem? bs n ≡ some (record { claim = some j; state = preparing })
      → Yields (λ next. 0 < held next.allocated j (i + n)) (prefill fl i bs st)
  unfolding prefill
  prefill-locks i [] st n j h = cc
  prefill-locks i (b ∷ bs) st zero j h =
      Yields-bind (λ next. 0 < held next.allocated j i) (λ next. 0 < held next.allocated j (i + 0))
        (prefill_one fl i b.claim b.state st) _
        (locks_here i b.claim b.state st j (ap (λ c. c.claim) same) (ap (λ c. c.state) same))
        λ next locked.
          Yields-map (Grows next) (λ last. 0 < held last.allocated j (i + 0))
            (prefill fl (suc i) bs next) (λ last g. rw (add_zero i) (omega (arith, g j i, locked)))
            (prefill-Grows (suc i) bs next)
    where
      same : b ≡ record { claim = some j; state = preparing }
      same = some-injective b (record { claim = some j; state = preparing }) h
  prefill-locks i (b ∷ bs) st (suc n) j h =
      Yields-bind (λ _. Unit) (λ next. 0 < held next.allocated j (i + suc n))
        (prefill_one fl i b.claim b.state st) _ (Yields-any _)
        λ next _. rw (add_suc i n) (prefill-locks (suc i) bs next n j h)

  -- Whatever the solver answers, a resource that is being prepared for a claim is among those of
  -- the claim's item in the state that is collected.
  pub plan_locks :
      {S : Type 0} (solver : Problem fl.F → Solution fl.F) (items : List (Item fl.F T))
      (bound : List (PoolResource ℕ)) (resources : WeightedItems fl.F S) (n j : ℕ)
      → get_elem? bound n ≡ some (record { claim = some j; state = preparing })
      → Yields (λ st. 0 < held st.allocated j n) (plan fl solver items bound resources)
  unfolding plan
  plan_locks solver items bound resources n j h =
      Yields-bind (λ st. 0 < held st.allocated j n) (λ st. 0 < held st.allocated j n)
        (prefill fl 0 bound start) _ (rw (zero_add n) at (prefill-locks 0 bound start n j h))
        λ st locked.
          Yields-map (Grows st) (λ last. 0 < held last.allocated j n) (allocate fl solver st)
            (λ last g. omega (arith, g j n, locked))
            (allocate-R fl Grows (λ a k x. omega arith)
              (λ a b c g k m x. omega (arith, g m x, k m x)) assign-Grows solver st)
    where
      start : State fl.F T
      start =
          initial_state fl items bound
            (fill_weights fl (weights_avg fl resources.weights) resources.weights)
