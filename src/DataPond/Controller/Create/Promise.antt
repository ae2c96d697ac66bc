-- ===== src/DataPond/Controller/Create/Promise.antt =====
-- What a volume that is created has.
use eecs_k8s.Prelude.{
  ℕ, suc, ◌+◌, ◌*◌, ◌%◌, ◌<◌, ◌≡◌, refl, sym, ap, true, List, [], ◌∷◌, map, arith, length, All,
  Bool-cases, inl, inr,
}
use eecs_k8s.Prelude.Panic.{Yields}
use eecs_k8s.Prelude.I64.{le, mul, sub, add, half, modulus}
use eecs_k8s.DataPond.Binding.{VolumeBindingClaim}
use eecs_k8s.DataPond.Candidates.{key_of, DeviceKey}
use eecs_k8s.Prelude.{◌++◌}
use eecs_k8s.DataPond.Picking.{pick}
use eecs_k8s.DataPond.Picking.Spec.{share, payload, shortfall, Replicated, IsSane, Fits}
use eecs_k8s.DataPond.Picking.Exact.{pick-Picks}
use eecs_k8s.DataPond.Controller.Create.{place, index_from}

share-index_from :
    (i t : ℕ) (bs : List VolumeBindingClaim) → map share (index_from i t bs) ≡ map share bs
unfolding index_from share payload shortfall
share-index_from i t [] = refl
share-index_from i t (b ∷ bs) = ap (λ ps. share b ∷ ps) (share-index_from (suc i) t bs)

nothing_missing :
    (q m : ℕ) → q < half → m < half → le (q % modulus) (sub (add 0 q) m) ≡ true → m ≡ 0
unfolding le sub add
nothing_missing q m h k e = ground arith

key_of-index_from :
    (i t : ℕ) (bs : List VolumeBindingClaim) → map key_of (index_from i t bs) ≡ map key_of bs
unfolding index_from
key_of-index_from i t [] = refl
key_of-index_from i t (b ∷ bs) = ap (λ ks. key_of b ∷ ks) (key_of-index_from (suc i) t bs)

index_from-Fits :
    (i t : ℕ) (bs : List VolumeBindingClaim) → All Fits bs → All Fits (index_from i t bs)
unfolding index_from
index_from-Fits i t [] h = tt
index_from-Fits i t (b ∷ bs) h = (h.0, index_from-Fits (suc i) t bs h.1)

-- The bindings that are placed are replicas, as many as asked for. What the bindings of each reserve
-- beyond their paddings, counted without wrapping around, comes to exactly the bytes required and
-- what its devices lack of their paddings: for each, offset and padding less capacity, or none. The
-- offsets lie within the devices, those are of less than 2 ^ 62 bytes, and the bytes of all the
-- replicas, with one padding for each device, are less than 2 ^ 63.
pub place-Replicated :
    (n required : ℕ) (bs : List VolumeBindingClaim)
    → All IsSane bs
    → required * n + 4_194_304 * length bs < half
    → Yields (λ out. Replicated required n (map share out)) (place n required bs)
unfolding place mul
place-Replicated n required bs s h =
    let p = pick-Picks n required 0 bs h (omega arith) s in
    elim (Bool-cases (le (mul required n) (pick n required 0 bs).1)) [
      | inl e ↦ rw e (
          rw (share-index_from 0 (length (pick n required 0 bs).0) (pick n required 0 bs).0) (
            p.full (
              nothing_missing (required * n) p.missing (omega arith) (omega (arith, p.bounded))
                (rw (sym p.counted) e))))
      | inr e ↦ rw e tt
    ]

-- No binding goes beyond the end of its device; and the devices bound are a first part of those
-- that are available, in their order, so that none is bound more often than it is available. The
-- offsets lie within the devices, those are of less than 2 ^ 62 bytes, and the bytes of all the
-- replicas, with one padding for each device, are less than 2 ^ 63.
pub place-Fits :
    (n required : ℕ) (bs : List VolumeBindingClaim)
    → All IsSane bs
    → required * n + 4_194_304 * length bs < half
    → Yields
        (λ out. All Fits out × ((rest : List DeviceKey) × (map key_of out ++ rest ≡ map key_of bs)))
        (place n required bs)
unfolding place
place-Fits n required bs s h =
    let p = pick-Picks n required 0 bs h (omega arith) s in
    elim (Bool-cases (le (mul required n) (pick n required 0 bs).1)) [
      | inl e ↦ rw e (
        index_from-Fits 0 (length (pick n required 0 bs).0) (pick n required 0 bs).0 p.fitting,
        (
          p.taken.0,
          rw (key_of-index_from 0 (length (pick n required 0 bs).0) (pick n required 0 bs).0)
              p.taken.1,
        ),
      )
      | inr e ↦ rw e tt
    ]
