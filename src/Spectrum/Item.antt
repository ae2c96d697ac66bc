-- ===== src/Spectrum/Item.antt =====
-- crates/openark-spectrum-scheduler/src/item.rs and state.rs: what is scheduled, and the state of
-- the scheduler with its last step, `collect`.
use eecs_k8s.Prelude.{ℕ, zero, suc, Option, none, some, List, [], ◌∷◌}
use eecs_k8s.Prelude.Int.{ℤ}
use eecs_k8s.Spectrum.Schema.{PoolResource, PoolResourceLifecycle}

-- `priority` is an i32 and `weight` a u64.
pub record Resource (F : Type 0) : Type 0 where
  pub penalty : F
  pub priority : ℤ
  pub min : Option F
  pub max : Option F
  pub weight : ℕ

-- Of its claim an item uses the life cycle.
pub record Item (F T : Type 0) : Type 0 where
  pub lifecycle : PoolResourceLifecycle
  pub resource : Resource F
  pub item : T

pub record WeightedItems (F S : Type 0) : Type 0 where
  pub items : List S
  pub weights : List (Option F)

pub record ScheduledItem (S T : Type 0) : Type 0 where
  pub item : T
  pub lifecycle : PoolResourceLifecycle
  pub priority : ℤ
  pub resources : List S

pub record State (F T : Type 0) : Type 0 where
  pub allocated : List (List ℕ)
  pub bound : List (PoolResource ℕ)
  pub filled : List F
  pub items : List (Item F T)
  pub remaining : List ℕ
  pub weights : List F

module _ {S : Type 0} where
  -- `get_mut(index).and_then(take)`: the resource, if it is still there, and what is left.
  unfoldable pub take_at : List (Option S) → ℕ → Option S × List (Option S)
  take_at [] i = (none, [])
  take_at (o ∷ os) zero = (o, none ∷ os)
  take_at (o ∷ os) (suc i) = let (r, rest) = take_at os i in (r, o ∷ rest)

  unfoldable pub push_found : Option S → List S → List S
  push_found none out = out
  push_found (some s) out = s ∷ out

  -- The `filter_map` over the resources of one item.
  unfoldable pub take_all : List ℕ → List (Option S) → List S × List (Option S)
  unfolding take_at push_found
  take_all [] pool = ([], pool)
  take_all (i ∷ is) pool =
      let (found, left) = take_at pool i in
      let (out, rest) = take_all is left in (push_found found out, rest)

  unfoldable pub scheduled : {F T : Type 0} → Item F T → List S → ScheduledItem S T
  scheduled it resources = record {
    item = it.item;
    lifecycle = it.lifecycle;
    priority = it.resource.priority;
    resources = resources;
  }

  -- The items are zipped with what was allocated to them.
  unfoldable pub collect_items :
      {F T : Type 0} → List (Item F T) → List (List ℕ) → List (Option S) → List (ScheduledItem S T)
  unfolding take_all scheduled
  collect_items [] allocs pool = []
  collect_items (it ∷ its) [] pool = []
  collect_items (it ∷ its) (a ∷ allocs) pool =
      let (out, left) = take_all a pool in scheduled it out ∷ collect_items its allocs left

abbrev pub wrap_some : {S : Type 0} → List S → List (Option S)
wrap_some [] = []
wrap_some (x ∷ xs) = some x ∷ wrap_some xs

unfoldable pub collect : {F S T : Type 0} → State F T → WeightedItems F S → List (ScheduledItem S T)
unfolding collect_items
collect st resources = collect_items st.items st.allocated (wrap_some resources.items)
