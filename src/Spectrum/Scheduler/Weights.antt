-- ===== src/Spectrum/Scheduler/Weights.antt =====
-- The weight that stands in for a missing one.
use eecs_k8s.Prelude.{
  if◌then◌else◌, ◌≡◌, refl, inl, inr, Bool-cases, true, Option, some, none, List, [], ◌∷◌,
}
use eecs_k8s.Spectrum.Float.{Float, OrderLaws}
use eecs_k8s.Spectrum.Scheduler.{least, greatest, weights_min, weights_max, weights_avg}

module _ (fl : Float) (laws : OrderLaws fl) where
  -- The least of a list beside its greatest: neither, or two numbers in order.
  abbrev InOrder : Option fl.F → Option fl.F → Type 0
  InOrder none none = Unit
  InOrder none (some g) = ⊥
  InOrder (some m) none = ⊥
  InOrder (some m) (some g) = fl.le m g ≡ true

  least-greatest :
      (ws : List (Option fl.F)) (m g : Option fl.F)
      → InOrder m g
      → InOrder (least fl ws m) (greatest fl ws g)
  unfolding least greatest
  least-greatest [] m g h = h
  least-greatest (none ∷ ws) m g h = least-greatest ws m g h
  least-greatest (some w ∷ ws) none none h = least-greatest ws (some w) (some w) (laws.le_refl w)
  least-greatest (some w ∷ ws) none (some g) h = elim h [ ]
  least-greatest (some w ∷ ws) (some m) none h = elim h [ ]
  least-greatest (some w ∷ ws) (some m) (some g) h = least-greatest ws (some _) (some _) step
    where
      step : fl.le (if fl.le m w then m else w) (if fl.le g w then w else g) ≡ true
      step = elim (Bool-cases (fl.le m w)) [
        | inl low ↦ elim (Bool-cases (fl.le g w)) [
          | inl high ↦ rw low (rw high low)
          | inr high ↦ rw low (rw high h)
        ]
        | inr low ↦ elim (Bool-cases (fl.le g w)) [
          | inl high ↦ rw low (rw high (laws.le_refl w))
          | inr high ↦ rw low (rw high (laws.le_trans w m g (laws.le_total m w low) h))
        ]
      ]

  weights_min-least :
      (ws : List (Option fl.F)) (m : fl.F)
      → least fl ws none ≡ some m
      → fl.le fl.one m ≡ true
      → weights_min fl ws ≡ m
  unfolding weights_min
  weights_min-least ws m e h = rw (e, weights_min) (laws.max_left m fl.one h)

  weights_max-least :
      (ws : List (Option fl.F)) (m : fl.F)
      → least fl ws none ≡ some m
      → fl.le fl.one m ≡ true
      → (g : Option fl.F) → greatest fl ws none ≡ g
      → InOrder (some m) g
      → weights_max fl ws ≡ m
  unfolding weights_max
  weights_max-least ws m e h (some g) eg o =
      rw (eg, weights_max) (rw (weights_min-least ws m e h) (laws.min_right g m o))
  weights_max-least ws m e h none eg o = elim o [ ]

  -- Where the least weight is at least one, the average of the least and the greatest weight is
  -- the mean of the least with itself: the greatest, which is cut down to the least, has no part.
  pub weights_avg-least :
      (ws : List (Option fl.F)) (m : fl.F)
      → least fl ws none ≡ some m
      → fl.le fl.one m ≡ true
      → weights_avg fl ws ≡ fl.div (fl.add m m) fl.two
  unfolding weights_avg
  weights_avg-least ws m e h =
      rw (weights_min-least ws m e h, weights_avg)
        (rw (weights_max-least ws m e h _ refl ordered) refl)
    where
      ordered : InOrder (some m) (greatest fl ws none)
      ordered = rw e at (least-greatest ws none none tt)
