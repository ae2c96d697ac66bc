-- ===== src/Spectrum/Float.antt =====
-- `f64`: a type with its operations, which the scheduler takes as a parameter.
use eecs_k8s.Prelude.{ℕ, ◌≡◌, Bool, true, false}

pub record Float : Type 1 where
  pub F : Type 0
  pub zero : F
  pub half : F
  pub one : F
  pub two : F
  pub of_nat : ℕ → F
  pub add : F → F → F
  pub div : F → F → F
  pub mul : F → F → F
  pub sub : F → F → F
  pub lt : F → F → Bool
  pub le : F → F → Bool
  pub min : F → F → F
  pub max : F → F → F

-- Facts of the arithmetic of IEEE 754, without NaN, on which the theorems rest: two numbers above a half have a
-- sum above one, also with rounding, and adding what is not negative lowers nothing.
pub record FloatLaws (fl : Float) : Type 0 where
  pub over_half :
      (a b c : fl.F)
      → fl.le fl.zero a ≡ true
      → fl.lt fl.half b ≡ true
      → fl.lt fl.half c ≡ true
      → fl.le b a ≡ true
      → fl.le (fl.add a c) fl.one ≡ false
  pub add_nonneg :
      (a b : fl.F) → fl.le fl.zero a ≡ true → fl.le fl.zero b ≡ true → fl.le a (fl.add a b) ≡ true
  pub add_nonneg_right :
      (a b : fl.F) → fl.le fl.zero a ≡ true → fl.le fl.zero b ≡ true → fl.le b (fl.add a b) ≡ true
  pub le_trans : (a b c : fl.F) → fl.le a b ≡ true → fl.le b c ≡ true → fl.le a c ≡ true
  pub le_refl : (a : fl.F) → fl.le a a ≡ true

-- `le`, `min` and `max` of the numbers that are not NaN, as a total order.
pub record OrderLaws (fl : Float) : Type 0 where
  pub le_refl : (a : fl.F) → fl.le a a ≡ true
  pub le_total : (a b : fl.F) → fl.le a b ≡ false → fl.le b a ≡ true
  pub le_trans : (a b c : fl.F) → fl.le a b ≡ true → fl.le b c ≡ true → fl.le a c ≡ true
  pub min_right : (a b : fl.F) → fl.le b a ≡ true → fl.min a b ≡ b
  pub max_left : (a b : fl.F) → fl.le b a ≡ true → fl.max a b ≡ a
