-- ===== src/Spectrum/Scheduler/Collect.antt =====
-- What `collect` hands out.
use eecs_k8s.Prelude.{
  ◌||◌, ◌==◌, ℕ, ◌+◌, ◌≤◌, ◌≡◌, refl, Bool, Option, some, none, List, [], ◌∷◌, length, arith, zero,
  suc,
}
use eecs_k8s.Prelude.Select.{count_if}
use eecs_k8s.Prelude.Panic.{ok, Yields, Yields-bind, assert, Yields-if, Yields-any}
use eecs_k8s.Spectrum.Float.{Float}
use eecs_k8s.Spectrum.Schema.{PoolResource}
use eecs_k8s.Spectrum.Item.{
  Item, WeightedItems, ScheduledItem, collect, collect_items, take_all, take_at, push_found,
  scheduled, wrap_some,
}
use eecs_k8s.Spectrum.Milp.{Problem, Solution}
use eecs_k8s.Spectrum.Scheduler.{plan, schedule}

module _ {S : Type 0} (p : S → Bool) where
  abbrev found : Option S → ℕ
  found none = 0
  found (some s) = count_if p (s ∷ [])

  abbrev left : List (Option S) → ℕ
  left [] = 0
  left (o ∷ os) = found o + left os

  -- How many resources with the property stand in the answer.
  abbrev pub handed : {T : Type 0} → List (ScheduledItem S T) → ℕ
  handed [] = 0
  handed (x ∷ xs) = count_if p x.resources + handed xs

  take_at-left :
      (pool : List (Option S)) (i : ℕ)
      → found (take_at pool i).0 + left (take_at pool i).1 ≡ left pool
  unfolding take_at
  take_at-left [] i = refl
  take_at-left (o ∷ os) zero = omega arith
  take_at-left (o ∷ os) (suc i) = omega (arith, take_at-left os i)

  count_if-push_found :
      (o : Option S) (out : List S) → count_if p (push_found o out) ≡ found o + count_if p out
  unfolding push_found count_if
  count_if-push_found none out = omega arith
  count_if-push_found (some s) out = ground arith

  take_all-left :
      (is : List ℕ) (pool : List (Option S))
      → count_if p (take_all is pool).0 + left (take_all is pool).1 ≡ left pool
  unfolding take_all count_if
  take_all-left [] pool = omega arith
  take_all-left (i ∷ is) pool = omega (
    arith,
    count_if-push_found (take_at pool i).0 (take_all is (take_at pool i).1).0,
    take_all-left is (take_at pool i).1,
    take_at-left pool i,
  )

  collect_items-left :
      {F T : Type 0} (items : List (Item F T)) (allocs : List (List ℕ)) (pool : List (Option S))
      → handed (collect_items items allocs pool) ≤ left pool
  unfolding collect_items
  collect_items-left [] allocs pool = omega arith
  collect_items-left (it ∷ its) [] pool = omega arith
  collect_items-left (it ∷ its) (a ∷ allocs) pool =
      unfold scheduled in
      omega (arith, take_all-left a pool, collect_items-left its allocs (take_all a pool).1)

  left-wrap_some : (xs : List S) → left (wrap_some xs) ≡ count_if p xs
  unfolding count_if
  left-wrap_some [] = refl
  left-wrap_some (x ∷ xs) = ground (arith, left-wrap_some xs)

  -- A resource is handed out at most once, whatever was allocated: an answer has no more resources
  -- with a property than there were.
  pub schedule_once :
      (fl : Float) {T : Type 0} (solver : Problem fl.F → Solution fl.F) (items : List (Item fl.F T))
      (bound : List (PoolResource ℕ)) (resources : WeightedItems fl.F S)
      → Yields
          (λ out. handed out ≤ count_if p resources.items)
          (schedule fl solver items bound resources)
  unfolding schedule collect
  schedule_once fl {T = T} solver items bound resources =
      Yields-bind (λ _. Unit) Fits (assert (length resources.items == length resources.weights)) _
        (Yields-any _)
        λ _ _.
          Yields-if Fits (length items == 0 || length resources.items == 0) (ok []) _
            (λ _. omega arith)
            λ _.
              Yields-bind (λ _. Unit) Fits (plan fl solver items bound resources) _ (Yields-any _)
                λ st _. omega (
                  arith,
                  collect_items-left st.items st.allocated (wrap_some resources.items),
                  left-wrap_some resources.items,
                )
    where
      Fits : List (ScheduledItem S T) → Type 0
      Fits out = handed out ≤ count_if p resources.items
