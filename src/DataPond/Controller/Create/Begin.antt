-- ===== src/DataPond/Controller/Create/Begin.antt =====
-- Where the bindings of a new volume begin: behind what is allocated.
use mathlib.Core.Path.{subst}
use Prim.Native.Nat.{Ordering}
use eecs_k8s.Prelude.{
  ◌⊎◌, ℕ, suc, zero, String, ◌≡◌, refl, Bool-cases, inl, inr, List, [], ◌∷◌, map, All, All-append,
  unwrap_or, Option, length,
}
use eecs_k8s.Prelude.Panic.{ok, Yields}
use eecs_k8s.Prelude.Dict.{Dict, get}
use eecs_k8s.Prelude.I64.{le, mul, add, sub}
use eecs_k8s.DataPond.Types.{Device}
use eecs_k8s.DataPond.Binding.{Pond, VolumeBindingClaim, reserve}
use eecs_k8s.DataPond.Attributes.{VolumeAttributes}
use eecs_k8s.DataPond.Candidates.{
  DeviceKey, device_key, device_key_eq, AccessibilityRequirements, Priority, compare_priority,
  priority, insert_ordered, filter_topology, fresh_claim, claims, rank, available_bindings,
}
use eecs_k8s.DataPond.Picking.{fill, pick}
use eecs_k8s.DataPond.Controller.{State}
use eecs_k8s.DataPond.Controller.Handler.{Driver}
use eecs_k8s.DataPond.Controller.Create.{
  CreateRequest, index_from, place, place_in, replicas, volume_id_of,
}

-- The cache has the pond by this name.
abbrev pub Listed : (pond_id : String) → Pond → Dict String Pond → Type 0
Listed pond_id pond [] = ⊥
Listed pond_id pond ((id, p) ∷ ponds) = ((id ≡ pond_id) × (p ≡ pond)) ⊎ Listed pond_id pond ponds

-- The claim begins where its device, by the name that the cache has for its pond, is allocated to.
abbrev pub Begins : Dict DeviceKey ℕ → Dict String Pond → VolumeBindingClaim → Type 0
Begins allocated ponds b =
    (pond_id : String) × Listed pond_id b.pond ponds
    × (b.metadata.offset ≡ unwrap_or (get allocated (device_key pond_id b.device.id)) 0)

module _ (allocated : Dict DeviceKey ℕ) (ponds : Dict String Pond) where
  abbrev Begin : VolumeBindingClaim → Type 0
  Begin = Begins allocated ponds

  devices-Begins :
      (volume_id pond_id : String) (pond : Pond) (devices : List Device)
      → Listed pond_id pond ponds
      → All Begin (map (fresh_claim volume_id allocated pond_id pond) devices)
  unfolding fresh_claim
  devices-Begins volume_id pond_id pond [] l = tt
  devices-Begins volume_id pond_id pond (d ∷ ds) l =
      ((pond_id, l, refl), devices-Begins volume_id pond_id pond ds l)

  claims-Begins :
      (volume_id : String) (some_ponds : Dict String Pond)
      → ((pond_id : String) (pond : Pond)
          → Listed pond_id pond some_ponds
          → Listed pond_id pond ponds)
      → All Begin (claims volume_id allocated some_ponds)
  unfolding claims
  claims-Begins volume_id [] among = tt
  claims-Begins volume_id ((pond_id, pond) ∷ more) among =
      All-append Begin (map (fresh_claim volume_id allocated pond_id pond) pond.devices)
        (claims volume_id allocated more)
        (devices-Begins volume_id pond_id pond pond.devices (among pond_id pond (inl (refl, refl))))
        (claims-Begins volume_id more (λ q p l. among q p (inr l)))

  abbrev Ranked : List (Priority × VolumeBindingClaim) → Type 0
  Ranked ranked = All Begin (map (λ r. r.1) ranked)

  insert_ordered-Begins :
      (k : Priority) (b : VolumeBindingClaim) (ranked : List (Priority × VolumeBindingClaim))
      → Begin b
      → Ranked ranked
      → Ranked (insert_ordered compare_priority k b ranked)
  unfolding insert_ordered
  insert_ordered-Begins k b [] h a = (h, tt)
  insert_ordered-Begins k b ((l, w) ∷ ranked) h a =
      by_order (compare_priority k l) (insert_ordered-Begins k b ranked h a.1)
    where
      by_order :
          (o : Ordering)
          → Ranked (insert_ordered compare_priority k b ranked)
          → Ranked (elim o as (λ _. List (Priority × VolumeBindingClaim)) [
            | Ordering.lt ↦ (k, b) ∷ (l, w) ∷ ranked
            | Ordering.eq ↦ (k, b) ∷ ranked
            | Ordering.gt ↦ (l, w) ∷ insert_ordered compare_priority k b ranked
          ])
      by_order Ordering.lt i = (h, a)
      by_order Ordering.eq i = (h, a.1)
      by_order Ordering.gt i = (a.0, i)

  rank-Begins :
      (requirements : Option AccessibilityRequirements) (bs : List VolumeBindingClaim)
      (ranked : List (Priority × VolumeBindingClaim))
      → All Begin bs
      → Ranked ranked
      → Ranked (rank requirements bs ranked)
  unfolding rank
  rank-Begins requirements [] ranked h a = a
  rank-Begins requirements (b ∷ bs) ranked h a =
      let t = filter_topology requirements b.pond in
      let i = insert_ordered-Begins (priority t.count_preferred b) b ranked h.0 a in
      elim (Bool-cases t.is_requisite) [
        | inl e ↦ rw e (rank-Begins requirements bs _ h.1 i)
        | inr e ↦ rw e (rank-Begins requirements bs ranked h.1 a)
      ]

  available_bindings-Begins :
      (requirements : Option AccessibilityRequirements) (volume_id : String)
      → All Begin (available_bindings requirements volume_id allocated ponds)
  unfolding available_bindings
  available_bindings-Begins requirements volume_id =
      rank-Begins requirements (claims volume_id allocated ponds) []
        (claims-Begins volume_id ponds (λ q p l. l)) tt

  reserve-Begins : (b : VolumeBindingClaim) (d : ℕ) → Begin b → Begin (reserve b d).0
  unfolding reserve
  reserve-Begins b d h = h

  fill-Begins :
      (required filled total : ℕ) (bs : List VolumeBindingClaim)
      → All Begin bs
      → All Begin (fill required filled total bs).0 × All Begin (fill required filled total bs).1
  unfolding fill
  fill-Begins required filled total [] h = (tt, tt)
  fill-Begins required filled total (b ∷ bs) h =
      let r = reserve b (sub required filled) in
      let k = reserve-Begins b (sub required filled) h.0 in
      let more = fill-Begins required (add filled r.1) (add total r.1) bs h.1 in
      elim (Bool-cases (le required (add filled r.1))) [
        | inl e ↦ rw e ((k, tt), h.1)
        | inr e ↦ rw e ((k, more.0), more.1)
      ]

  pick-Begins :
      (n required total : ℕ) (bs : List VolumeBindingClaim)
      → All Begin bs
      → All Begin (pick n required total bs).0
  unfolding pick
  pick-Begins zero required total bs h = tt
  pick-Begins (suc n) required total bs h =
      let group = fill required 0 total bs in
      let k = fill-Begins required 0 total bs h in
      All-append Begin group.0 (pick n required group.2 group.1).0 k.0
        (pick-Begins n required group.2 group.1 k.1)

  index_from-Begins :
      (i t : ℕ) (bs : List VolumeBindingClaim) → All Begin bs → All Begin (index_from i t bs)
  unfolding index_from
  index_from-Begins i t [] h = tt
  index_from-Begins i t (b ∷ bs) h = (h.0, index_from-Begins (suc i) t bs h.1)

  place-Begins :
      (n required : ℕ) (bs : List VolumeBindingClaim)
      → All Begin bs
      → Yields (All Begin) (place n required bs)
  unfolding place
  place-Begins n required bs h =
      let picked = pick n required 0 bs in
      elim (Bool-cases (le (mul required n) picked.1)) [
        | inl e ↦
            rw e (index_from-Begins 0 (length picked.0) picked.0 (pick-Begins n required 0 bs h))
        | inr e ↦ rw e tt
      ]

pub place_in-Begins :
    (driver : Driver) (r : CreateRequest) (required : ℕ) (attributes : VolumeAttributes)
    (st : State) (bindings : List VolumeBindingClaim)
    → place_in driver r required attributes st ≡ ok bindings
    → All (Begins st.allocated st.ponds.data_of) bindings
unfolding place_in
place_in-Begins driver r required attributes st bindings e =
    let available =
      available_bindings r.accessibility_requirements (volume_id_of r.name) st.allocated
        st.ponds.data_of in
    subst (Yields (All (Begins st.allocated st.ponds.data_of))) e (
      place-Begins st.allocated st.ponds.data_of (replicas driver attributes) _ available (
        available_bindings-Begins st.allocated st.ponds.data_of r.accessibility_requirements
          (volume_id_of r.name)))
