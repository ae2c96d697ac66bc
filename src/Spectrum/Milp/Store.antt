-- ===== src/Spectrum/Milp/Store.antt =====
-- What a round does with the resources: each stays in one place.
use eecs_k8s.Prelude.{
  add_zero, add_suc, ℕ, suc, ◌+◌, ◌<◌, ◌≤◌, ◌≡◌, ◌≢◌, refl, ◌∙◌, true, false, inl, inr, Bool-cases,
  some, List, [], ◌∷◌, ◌++◌, ◌==◌, ◌⊎◌, length, get_elem?, arith,
}
use eecs_k8s.Prelude.Set.{
  count, total, remove, modify, total-modify_push, count-remove_self, count-remove_ne,
}
use eecs_k8s.Prelude.Panic.{ok, Yields, Yields-bind, Yields-unwrap, Yields-map, Yields-any, unwrap}
use eecs_k8s.Spectrum.Float.{Float}
use eecs_k8s.Spectrum.Item.{State}
use eecs_k8s.Spectrum.Milp.{Variable, y, assign, store_row, store_rows}
use eecs_k8s.Spectrum.Milp.Rows.{picks}

-- In how many places a resource is: with the items, and among those that remain.
abbrev pub placed : {F T : Type 0} → State F T → ℕ → ℕ
placed st i = total i st.allocated + count i st.remaining

-- A change that concerns the resource `i` only, and leaves it in as many places.
record Moved {F T : Type 0} (i : ℕ) (st next : State F T) : Type 0 where
  same_placed : (k : ℕ) → placed next k ≡ placed st k
  same_rest : (k : ℕ) → k ≢ i → count k next.remaining ≡ count k st.remaining
  less : (k : ℕ) → count k next.remaining ≤ count k st.remaining

Moved-refl : {F T : Type 0} (i : ℕ) (st : State F T) → Moved i st st
Moved-refl i st = record {
  same_placed = λ k. refl;
  same_rest = λ k h. refl;
  less = λ k. omega arith;
}

-- A change that leaves every resource in as many places.
pub record Kept {F T : Type 0} (st next : State F T) : Type 0 where
  pub same_placed : (k : ℕ) → placed next k ≡ placed st k
  pub less : (k : ℕ) → count k next.remaining ≤ count k st.remaining

pub Kept-refl : {F T : Type 0} (st : State F T) → Kept st st
Kept-refl st = record { same_placed = λ k. refl; less = λ k. omega arith }

pub Kept-trans : {F T : Type 0} (a b c : State F T) → Kept a b → Kept b c → Kept a c
Kept-trans a b c h k = record {
  same_placed = λ r. k.same_placed r ∙ h.same_placed r;
  less = λ r. omega (arith, h.less r, k.less r);
}

Moved→Kept : {F T : Type 0} (i : ℕ) (st next : State F T) → Moved i st next → Kept st next
Moved→Kept i st next m = record { same_placed = m.same_placed; less = m.less }

module _ (fl : Float) {T : Type 0} where
  assign-Moved :
      (st : State fl.F T) (i j : ℕ)
      → count i st.remaining ≡ 1
      → Yields (Moved i st) (assign fl st i j)
  unfolding assign
  assign-Moved st i j one =
      Yields-bind (λ a. modify st.allocated j (λ xs. xs ++ i ∷ []) ≡ some a) (Moved i st)
        (unwrap (modify st.allocated j (λ xs. xs ++ i ∷ []))) _
        (Yields-unwrap _ _ (modify st.allocated j (λ xs. xs ++ i ∷ [])) (λ a e. e))
        λ a e.
          Yields-bind (λ _. Unit) (Moved i st) (unwrap (get_elem? st.weights i)) _ (Yields-any _)
            λ w _.
              Yields-bind (λ _. Unit) (Moved i st) (unwrap (modify st.filled j (λ f. fl.add f w))) _
                (Yields-any _)
                λ f _. record {
                  same_placed = λ k. pushed a e k (Bool-cases (k == i));
                  same_rest = λ k h. count-remove_ne k i st.remaining h;
                  less = λ k. fewer k (Bool-cases (k == i));
                }
    where
      fewer :
          (k : ℕ)
          → ((k == i) ≡ true) ⊎ ((k == i) ≡ false)
          → count k (remove i st.remaining) ≤ count k st.remaining
      fewer k c = ground (arith, count-remove_self i st.remaining, count-remove_ne k i st.remaining)

      pushed :
          (a : List (List ℕ))
          → modify st.allocated j (λ xs. xs ++ i ∷ []) ≡ some a
          → (k : ℕ) → ((k == i) ≡ true) ⊎ ((k == i) ≡ false)
          → total k a + count k (remove i st.remaining) ≡ placed st k
      pushed a e k c = ground (
        arith,
        total-modify_push k j i st.allocated a e,
        count-remove_self i st.remaining,
        count-remove_ne k i st.remaining,
      )

  Moved-trans : (i : ℕ) (a b c : State fl.F T) → Moved i a b → Moved i b c → Moved i a c
  Moved-trans i a b c h k = record {
    same_placed = λ r. k.same_placed r ∙ h.same_placed r;
    same_rest = λ r n. k.same_rest r n ∙ h.same_rest r n;
    less = λ r. omega (arith, h.less r, k.less r);
  }

  module _ (value : Variable → fl.F) where
    store_row-none :
        (row i col : ℕ) (js : List ℕ) (st : State fl.F T)
        → picks fl value row col (length js) ≡ 0
        → store_row fl value row i col js st ≡ ok st
    unfolding store_row
    store_row-none row i col [] st h = refl
    store_row-none row i col (j ∷ js) st h = elim (Bool-cases (fl.lt fl.half (value (y row col)))) [
      | inl high ↦ absurd (omega (arith, rw high at h))
      | inr low ↦ rw low (store_row-none row i (suc col) js st (omega (arith, rw low at h)))
    ]

    store_row-Moved :
        (row i col : ℕ) (js : List ℕ) (st : State fl.F T)
        → count i st.remaining ≡ 1
        → picks fl value row col (length js) ≤ 1
        → Yields (Moved i st) (store_row fl value row i col js st)
    unfolding store_row
    store_row-Moved row i col [] st one h = Moved-refl i st
    store_row-Moved row i col (j ∷ js) st one h =
        elim (Bool-cases (fl.lt fl.half (value (y row col)))) [
          | inl high ↦ rw high (
              Yields-bind (Moved i st) (Moved i st) (assign fl st i j) _ (assign-Moved st i j one)
                λ next m.
                  rw (store_row-none row i (suc col) js next (omega (arith, rw high at h))) m)
          | inr low ↦
              rw low (store_row-Moved row i (suc col) js st one (omega (arith, rw low at h)))
        ]

    pub store_rows-Kept :
        (targets : List ℕ) (row : ℕ) (is : List ℕ) (st : State fl.F T)
        → ((k : ℕ) → count k is ≤ count k st.remaining)
        → ((k : ℕ) → count k st.remaining ≤ 1)
        → ((r : ℕ) → r < length is → picks fl value (row + r) 0 (length targets) ≤ 1)
        → Yields (Kept st) (store_rows fl value targets row is st)
    unfolding store_rows
    store_rows-Kept targets row [] st among one h = Kept-refl st
    store_rows-Kept targets row (i ∷ is) st among one h =
        Yields-bind (Moved i st) (Kept st) (store_row fl value row i 0 targets st) _
          (store_row-Moved row i 0 targets st present (rw (add_zero row) at (h 0 (omega arith))))
          λ next m.
            Yields-map (Kept next) (Kept st) (store_rows fl value targets (suc row) is next)
              (λ last k. Kept-trans st next last (Moved→Kept i st next m) k)
              (store_rows-Kept targets (suc row) is next (λ k. rest next m k (Bool-cases (k == i)))
                (λ k. omega (arith, m.less k, one k))
                (λ r lt. rw (add_suc row r) at (h (suc r) (omega arith))))
      where
        present : count i st.remaining ≡ 1
        present = unfold count in ground (arith, among i, one i)

        rest :
            (next : State fl.F T)
            → Moved i st next
            → (k : ℕ) → ((k == i) ≡ true) ⊎ ((k == i) ≡ false)
            → count k is ≤ count k next.remaining
        rest next m k c = unfold count in ground (arith, among k, one k, m.same_rest k)
