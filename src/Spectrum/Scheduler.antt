-- ===== src/Spectrum/Scheduler.antt =====
-- crates/openark-spectrum-scheduler/src/lib.rs: `schedule`.
pub mod Preserve
pub mod Locked
pub mod Conserve
pub mod Collect
pub mod Targets
pub mod Prefill
pub mod Total
pub mod Tiers
pub mod Ascending
pub mod Weights
use eecs_k8s.Prelude.{
  ℕ, zero, suc, ◌+◌, Bool, true, false, ◌&&◌, ◌||◌, Option, none, some, List, [], ◌∷◌, ◌++◌, ◌==◌,
  length, get_elem?, is_some, unwrap_or, if◌then◌else◌,
}
use eecs_k8s.Prelude.Int.{ℤ, ltb_ℤ, eq_ℤ}
use eecs_k8s.Prelude.Panic.{Result, ok, err, panic, unwrap, assert, ◌>>=◌, ◌>>◌}
use eecs_k8s.Prelude.Set.{insert, modify}
use eecs_k8s.Spectrum.Float.{Float}
use eecs_k8s.Spectrum.Schema.{CommitState, PoolResource, pending, preparing, running}
use eecs_k8s.Spectrum.Item.{Item, WeightedItems, ScheduledItem, State, collect}
use eecs_k8s.Spectrum.Milp.{Problem, Solution, Solver, Try, maximisation, minimisation, solve}

-- A tier: a priority and the items that have it.
abbrev pub Tiers : Type 0
Tiers = List (ℤ × List ℕ)

-- `entry(priority).or_default().push(j)` of a map in order.
unfoldable pub push_tier : ℤ → ℕ → Tiers → Tiers
push_tier p j [] = (p, j ∷ []) ∷ []
push_tier p j ((q, js) ∷ ts) =
    if ltb_ℤ p q
    then (p, j ∷ []) ∷ (q, js) ∷ ts
    else if eq_ℤ p q
    then (q, js ++ j ∷ []) ∷ ts
    else (q, js) ∷ push_tier p j ts

unfoldable pub group_tiers : List ℤ → List ℕ → Tiers → Try Tiers
unfolding push_tier
group_tiers priority [] ts = ok ts
group_tiers priority (j ∷ js) ts = do
  p ← unwrap (get_elem? priority j)
  group_tiers priority js (push_tier p j ts)

tier_items : Tiers → List (List ℕ)
tier_items [] = []
tier_items ((p, js) ∷ ts) = js ∷ tier_items ts

-- The items of each priority, from the least.
unfoldable pub build_tiers : List ℤ → List ℕ → Try (List (List ℕ))
unfolding group_tiers tier_items
build_tiers priority targets = do ts ← group_tiers priority targets []; ok (tier_items ts)

abbrev pub tier_solver : List ℕ → Solver
tier_solver targets = record {
  direction = maximisation;
  targets = targets;
  use_all = false;
  use_max = true;
  use_min = true;
}

abbrev pub rest_solver : List ℕ → Solver
rest_solver targets = record {
  direction = minimisation;
  targets = targets;
  use_all = true;
  use_max = false;
  use_min = false;
}

unfoldable pub repeat {ℓ} : {A : Type ℓ} → ℕ → A → List A
repeat zero a = []
repeat (suc n) a = a ∷ repeat n a

module _ (fl : Float) where
  open fl use {F}

  -- `flatten().min()` and `max()`: the first of the least, the last of the greatest.
  unfoldable pub least : List (Option F) → Option F → Option F
  least [] m = m
  least (none ∷ ws) m = least ws m
  least (some w ∷ ws) none = least ws (some w)
  least (some w ∷ ws) (some m) = least ws (some (if fl.le m w then m else w))

  unfoldable pub greatest : List (Option F) → Option F → Option F
  greatest [] m = m
  greatest (none ∷ ws) m = greatest ws m
  greatest (some w ∷ ws) none = greatest ws (some w)
  greatest (some w ∷ ws) (some m) = greatest ws (some (if fl.le m w then w else m))

  unfoldable pub weights_min : List (Option F) → F
  unfolding least
  weights_min ws = fl.max (unwrap_or (least ws none) fl.zero) fl.one

  unfoldable pub weights_max : List (Option F) → F
  unfolding greatest
  weights_max ws = fl.min (unwrap_or (greatest ws none) fl.zero) (weights_min ws)

  unfoldable pub weights_avg : List (Option F) → F
  unfolding weights_min weights_max
  weights_avg ws = fl.div (fl.add (weights_min ws) (weights_max ws)) fl.two

  unfoldable pub fill_weights : F → List (Option F) → List F
  fill_weights avg [] = []
  fill_weights avg (w ∷ ws) = unwrap_or w avg ∷ fill_weights avg ws

  module _ {T : Type 0} where
    -- Prefill: a resource that is being prepared stays with its item, another is free.
    unfoldable pub lock : State F T → ℕ → ℕ → Try (State F T)
    lock st i j = do
      allocated ← unwrap (modify st.allocated j (λ xs. xs ++ i ∷ []))
      w ← unwrap (get_elem? st.weights i)
      filled ← unwrap (modify st.filled j (λ f. fl.add f w))
      ok (record st { allocated = allocated; filled = filled })

    unfoldable pub release : State F T → ℕ → State F T
    release st i = record st { remaining = insert i st.remaining }

    unfoldable pub prefill_one : ℕ → Option ℕ → CommitState → State F T → Try (State F T)
    unfolding lock release
    prefill_one i (some j) preparing st = lock st i j
    prefill_one i none preparing st = ok (release st i)
    prefill_one i claim pending st = ok (release st i)
    prefill_one i claim running st = ok (release st i)

    unfoldable pub prefill : ℕ → List (PoolResource ℕ) → State F T → Try (State F T)
    unfolding prefill_one
    prefill i [] st = ok st
    prefill i (b ∷ bs) st = do next ← prefill_one i b.claim b.state st; prefill (suc i) bs next

    unfoldable pub initial_state : List (Item F T) → List (PoolResource ℕ) → List F → State F T
    unfolding repeat
    initial_state items bound weights = record {
      allocated = repeat (length items) [];
      bound = bound;
      filled = repeat (length items) fl.zero;
      items = items;
      remaining = [];
      weights = weights;
    }

    -- The classes of the items, by their indexes from `index` on.
    unfoldable pub best_effort : ℕ → List (Item F T) → List ℕ
    best_effort index [] = []
    best_effort index (b ∷ bs) =
        if is_some b.resource.max
        then best_effort (suc index) bs
        else index ∷ best_effort (suc index) bs

    unfoldable pub burstable : ℕ → List (Item F T) → List ℕ
    burstable index [] = []
    burstable index (b ∷ bs) =
        if is_some b.resource.min
        then index ∷ burstable (suc index) bs
        else burstable (suc index) bs

    unfoldable pub guaranteed : ℕ → List (Item F T) → List ℕ
    guaranteed index [] = []
    guaranteed index (b ∷ bs) =
        if is_some b.resource.min && is_some b.resource.max
        then index ∷ guaranteed (suc index) bs
        else guaranteed (suc index) bs

    unfoldable pub priorities : List (Item F T) → List ℤ
    priorities [] = []
    priorities (b ∷ bs) = b.resource.priority ∷ priorities bs

    module _ (solver : Problem F → Solution F) where
      -- The tiers are solved in order; one that is not solved ends the loop.
      unfoldable pub solve_tiers : List (List ℕ) → State F T → Try (State F T)
      unfolding solve
      solve_tiers [] st = ok st
      solve_tiers (js ∷ tiers) st = do
        (more, next) ← solve fl solver (tier_solver js) st
        let rest = solve_tiers tiers next
        if more then rest else ok next

      unfoldable pub solve_class : List ℤ → List ℕ → State F T → Try (State F T)
      unfolding build_tiers solve_tiers
      solve_class priority targets st = do
        tiers ← build_tiers priority targets
        solve_tiers tiers st

      unfoldable pub solve_rest : List ℕ → State F T → Try (State F T)
      unfolding solve
      solve_rest targets st =
          if length st.remaining == 0 || length targets == 0
          then ok st
          else do (_, next) ← solve fl solver (rest_solver targets) st; ok next

      -- Steps 1 and 2: guaranteed, burstable and best-effort items.
      unfoldable pub allocate : State F T → Try (State F T)
      unfolding solve_class solve_rest best_effort burstable guaranteed priorities
      allocate st = do
        st1 ← solve_class (priorities st.items) (guaranteed 0 st.items) st
        st2 ← solve_class (priorities st.items) (burstable 0 st.items) st1
        solve_rest (best_effort 0 st.items) st2

      -- The state that is collected; none, if there is nothing to do.
      unfoldable pub plan :
          {S : Type 0}
          → List (Item F T)
          → List (PoolResource ℕ)
          → WeightedItems F S
          → Try (State F T)
      unfolding prefill initial_state fill_weights weights_avg allocate
      plan items bound resources = do
        locked ← prefill 0 bound (
            initial_state items bound
              (fill_weights (weights_avg resources.weights) resources.weights))
        allocate locked

      unfoldable pub schedule :
          {S : Type 0}
          → List (Item F T)
          → List (PoolResource ℕ)
          → WeightedItems F S
          → Try (List (ScheduledItem S T))
      unfolding plan collect
      schedule items bound resources = do
        assert (length resources.items == length resources.weights)
        if length items == 0 || length resources.items == 0
            then ok []
            else do st ← plan items bound resources; ok (collect st resources)
