-- ===== src/Spectrum/Pool/Priority.antt =====
-- The order in which a commit serves the claims.
use eecs_k8s.Prelude.{◌⊎◌, ◌≡◌, String, false, List, [], ◌∷◌, All}
use eecs_k8s.Prelude.Int.{ltb_ℤ}
use eecs_k8s.Spectrum.Pool.{endpoint, PoolCommitRequestItem}
use eecs_k8s.Spectrum.Pool.Handler.{Orders, Key, Value}

-- No later entry has a lesser priority.
abbrev NotAfter : Key → Key × Value → Type 0
NotAfter k o = ltb_ℤ o.0.priority k.priority ≡ false

abbrev pub InPriority : Orders → Type 0
InPriority [] = Unit
InPriority ((k, v) ∷ os) = All (NotAfter k) os × InPriority os

-- The name is among the names.
abbrev pub Named : String → List String → Type 0
Named name [] = ⊥
Named name (n ∷ ns) = (name ≡ n) ⊎ Named name ns

-- The order is for the claim: with its priority, its name, its probes, and a resource of its pool.
abbrev pub IsOf : PoolCommitRequestItem → Key × Value → Type 0
IsOf item (k, v) =
    (k.priority ≡ item.priority)
    × (v.claim_name ≡ item.name)
    × (v.lifecycle ≡ item.lifecycle)
    × (v.resource ≡ endpoint item.pool.namespace v.address)
    × Named v.address item.pool.resources

-- It is for one of the claims.
abbrev pub IsServed : List PoolCommitRequestItem → Key × Value → Type 0
IsServed [] o = ⊥
IsServed (item ∷ items) o = IsOf item o ⊎ IsServed items o
