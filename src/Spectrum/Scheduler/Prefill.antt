-- ===== src/Spectrum/Scheduler/Prefill.antt =====
-- The state is well shaped from the start, and prefilling keeps it so.
use eecs_k8s.Prelude.{
  ℕ, ◌<◌, ◌≤◌, ◌≡◌, refl, ◌∙◌, ap, All, Option, some, none, List, [], ◌∷◌, length, get_elem?, arith,
  ◌++◌, suc, zero, ◌+◌,
}
use eecs_k8s.Prelude.Panic.{unwrap, Safe, Safe-bind, Safe-unwrap, Safe-map}
use eecs_k8s.Prelude.Set.{modify, modify-is_some, length-modify, get_elem?-is_some, insert-All}
use eecs_k8s.Spectrum.Float.{Float}
use eecs_k8s.Spectrum.Item.{State}
use eecs_k8s.Spectrum.Schema.{PoolResource, CommitState, pending, preparing, running}
use eecs_k8s.Spectrum.Milp.Shape.{IsShaped, IsSuccessor, IsSuccessor-refl, IsSuccessor-trans}
use eecs_k8s.Spectrum.Scheduler.{repeat, fill_weights, lock, release, prefill_one, prefill}

-- A claim that holds a resource is one of the items.
abbrev pub ClaimInRange : ℕ → PoolResource ℕ → Type 0
ClaimInRange n b = (j : ℕ) → b.claim ≡ some j → j < n

pub length-repeat : {A : Type 0} (n : ℕ) (a : A) → length (repeat n a) ≡ n
unfolding repeat
length-repeat zero a = refl
length-repeat (suc n) a = ap suc (length-repeat n a)

module _ (fl : Float) where
  pub length-fill_weights :
      (avg : fl.F) (ws : List (Option fl.F)) → length (fill_weights fl avg ws) ≡ length ws
  unfolding fill_weights
  length-fill_weights avg [] = refl
  length-fill_weights avg (w ∷ ws) = ap suc (length-fill_weights avg ws)

module _ (fl : Float) {T : Type 0} where
  lock-Safe :
      (st : State fl.F T) (i j : ℕ)
      → IsShaped st
      → i < length st.bound
      → j < length st.items
      → Safe (IsSuccessor st) (lock fl st i j)
  unfolding lock
  lock-Safe st i j shaped hi hj =
      Safe-bind (λ a. length a ≡ length st.allocated) (IsSuccessor st)
        (unwrap (modify st.allocated j (λ xs. xs ++ i ∷ []))) _
        (Safe-unwrap _ (λ a. length a ≡ length st.allocated)
          (modify st.allocated j (λ xs. xs ++ i ∷ []))
          (modify-is_some st.allocated j _ (omega (arith, shaped.allocated_length)))
          (λ a e. length-modify st.allocated a j _ e))
        λ a ea.
          Safe-bind (λ _. Unit) (IsSuccessor st) (unwrap (get_elem? st.weights i)) _
            (Safe-unwrap _ (λ _. Unit) (get_elem? st.weights i)
              (get_elem?-is_some st.weights i (omega (arith, shaped.weights_length))) (λ _ _. tt))
            λ w _.
              Safe-bind (λ f. length f ≡ length st.filled) (IsSuccessor st)
                (unwrap (modify st.filled j (λ f. fl.add f w))) _
                (Safe-unwrap _ (λ f. length f ≡ length st.filled)
                  (modify st.filled j (λ f. fl.add f w))
                  (modify-is_some st.filled j _ (omega (arith, shaped.filled_length)))
                  (λ f e. length-modify st.filled f j _ e))
                λ f ef. record {
                  shaped = record {
                    allocated_length = ea ∙ shaped.allocated_length;
                    filled_length = ef ∙ shaped.filled_length;
                    weights_length = shaped.weights_length;
                    remaining_bound = shaped.remaining_bound;
                  };
                  same_items = refl;
                  same_bound = refl;
                }

  release-IsSuccessor :
      (st : State fl.F T) (i : ℕ)
      → IsShaped st
      → i < length st.bound
      → IsSuccessor st (release fl st i)
  unfolding release
  release-IsSuccessor st i shaped hi = record {
    shaped = record {
      allocated_length = shaped.allocated_length;
      filled_length = shaped.filled_length;
      weights_length = shaped.weights_length;
      remaining_bound =
          insert-All (λ k. k < length st.bound) i st.remaining hi shaped.remaining_bound;
    };
    same_items = refl;
    same_bound = refl;
  }

  prefill_one-Safe :
      (i : ℕ) (claim : Option ℕ) (state : CommitState) (st : State fl.F T)
      → IsShaped st
      → i < length st.bound
      → ((j : ℕ) → claim ≡ some j → j < length st.items)
      → Safe (IsSuccessor st) (prefill_one fl i claim state st)
  unfolding prefill_one
  prefill_one-Safe i (some j) preparing st shaped hi h = lock-Safe st i j shaped hi (h j refl)
  prefill_one-Safe i none preparing st shaped hi h = release-IsSuccessor st i shaped hi
  prefill_one-Safe i claim pending st shaped hi h = release-IsSuccessor st i shaped hi
  prefill_one-Safe i claim running st shaped hi h = release-IsSuccessor st i shaped hi

  pub prefill-Safe :
      (i : ℕ) (bs : List (PoolResource ℕ)) (st : State fl.F T)
      → IsShaped st
      → i + length bs ≤ length st.bound
      → All (ClaimInRange (length st.items)) bs
      → Safe (IsSuccessor st) (prefill fl i bs st)
  unfolding prefill
  prefill-Safe i [] st shaped hi h = IsSuccessor-refl st shaped
  prefill-Safe i (b ∷ bs) st shaped hi h =
      Safe-bind (IsSuccessor st) (IsSuccessor st) (prefill_one fl i b.claim b.state st) _
        (prefill_one-Safe i b.claim b.state st shaped (omega arith) h.0)
        λ next s.
          Safe-map (IsSuccessor next) (IsSuccessor st) (prefill fl (suc i) bs next)
            (λ last t. IsSuccessor-trans st next last s t)
            (prefill-Safe (suc i) bs next s.shaped (rw s.same_bound (omega arith))
              (rw s.same_items h.1))
