-- ===== src/DataPond/Picking.antt =====
-- contrib/data-pond/src/controller.rs: the loop of `create_volume` that picks the devices.
pub mod Spec
pub mod Deficit
pub mod Filling
pub mod Exact
use eecs_k8s.Prelude.{ℕ, zero, suc, List, [], ◌∷◌, ◌++◌, if◌then◌else◌}
use eecs_k8s.Prelude.I64.{add, sub, le}
use eecs_k8s.DataPond.Binding.{VolumeBindingClaim, reserve}

-- One replica: the claims that it takes from the iterator, what the iterator has left, and
-- the total of the bytes filled.
unfoldable pub fill :
    (required filled total : ℕ)
    → List VolumeBindingClaim
    → List VolumeBindingClaim × List VolumeBindingClaim × ℕ
unfolding reserve add sub le
fill required filled total [] = ([], [], total)
fill required filled total (b ∷ bs) =
    let r = reserve b (sub required filled) in
    let filled' = add filled r.1 in
    let total' = add total r.1 in
    let more = fill required filled' total' bs in
    if le required filled' then (r.0 ∷ [], bs, total') else (r.0 ∷ more.0, more.1, more.2)

-- All the replicas: the claims, and the total.
unfoldable pub pick :
    (num_replicas required total : ℕ) → List VolumeBindingClaim → List VolumeBindingClaim × ℕ
unfolding fill
pick zero required total bs = ([], total)
pick (suc n) required total bs =
    let group = fill required 0 total bs in
    let more = pick n required group.2 group.1 in (group.0 ++ more.0, more.1)
