-- ===== src/Spectrum/Milp/Shape.antt =====
-- What the scheduler supposes of its state, and of the targets of a round.
use eecs_k8s.Prelude.{
  ◌∙◌, ◌||◌, false, ℕ, ◌≤◌, ◌<◌, ◌≡◌, refl, Bool, true, Option, none, some, List, All, length,
  get_elem?, is_some,
}
use eecs_k8s.Spectrum.Item.{Item, State}

-- The lists of the state have the lengths that its indexes suppose.
pub record IsShaped {F T : Type 0} (st : State F T) : Type 0 where
  pub allocated_length : length st.allocated ≡ length st.items
  pub filled_length : length st.filled ≡ length st.items
  pub weights_length : length st.bound ≤ length st.weights
  pub remaining_bound : All (λ i. i < length st.bound) st.remaining

abbrev pub has_bound : {F T : Type 0} → Option (Item F T) → Bool
has_bound none = false
has_bound (some it) = is_some it.resource.min || is_some it.resource.max

-- The targets are items, and where the bounds are read each has one.
pub record IsTarget {F T : Type 0} (items : List (Item F T)) (use_max : Bool) (j : ℕ) : Type 0 where
  pub in_range : j < length items
  pub bounded : use_max ≡ true → has_bound (get_elem? items j) ≡ true

-- What a round makes of a state: well shaped again, over the same items and bindings.
pub record IsSuccessor {F T : Type 0} (st next : State F T) : Type 0 where
  pub shaped : IsShaped next
  pub same_items : next.items ≡ st.items
  pub same_bound : next.bound ≡ st.bound

pub IsSuccessor-refl : {F T : Type 0} (st : State F T) → IsShaped st → IsSuccessor st st
IsSuccessor-refl st h = record { shaped = h; same_items = refl; same_bound = refl }

pub IsSuccessor-trans :
    {F T : Type 0} (a b c : State F T) → IsSuccessor a b → IsSuccessor b c → IsSuccessor a c
IsSuccessor-trans a b c h k = record {
  shaped = k.shaped;
  same_items = k.same_items ∙ h.same_items;
  same_bound = k.same_bound ∙ h.same_bound;
}
