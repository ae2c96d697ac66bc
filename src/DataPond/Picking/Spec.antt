-- ===== src/DataPond/Picking/Spec.antt =====
-- What the choice of the devices of a volume promises.
use eecs_k8s.Prelude.{ℕ, suc, ◌+◌, ◌-◌, ◌≤◌, ◌<◌, ◌≡◌, List, [], ◌∷◌, ◌++◌}
use eecs_k8s.DataPond.Types.{padding}
use eecs_k8s.DataPond.Binding.{VolumeBindingClaim}

-- The bytes of a claim that serve the volume: what it reserves beyond the padding.
unfoldable pub payload : VolumeBindingClaim → ℕ
unfolding padding
payload b = b.metadata.reserved - padding b.device.layer

-- What a device that is nearly full lacks of the padding alone.
unfoldable pub shortfall : VolumeBindingClaim → ℕ
unfolding padding
shortfall b = b.metadata.offset + padding b.device.layer - b.device.capacity

pub record Share : Type 0 where
  pub served : ℕ
  pub short : ℕ

unfoldable pub share : VolumeBindingClaim → Share
unfolding payload shortfall
share b = record { served = payload b; short = shortfall b }

unfoldable pub all_served : List Share → ℕ
all_served [] = 0
all_served (x ∷ xs) = x.served + all_served xs

unfoldable pub all_short : List Share → ℕ
all_short [] = 0
all_short (x ∷ xs) = x.short + all_short xs

-- So many groups, one after another, each of the bytes required, and beyond them of as many as its
-- devices lack of their paddings.
pub data Replicated (required : ℕ) : ℕ → List Share → Type 0 where
  done : Replicated required 0 []
  replica :
      {n : ℕ} (group rest : List Share)
      → all_served group ≡ required + all_short group
      → Replicated required n rest
      → Replicated required (suc n) (group ++ rest)

-- The claim lies within its device.
abbrev pub Fits : VolumeBindingClaim → Type 0
Fits b = b.metadata.offset + b.metadata.reserved ≤ b.device.capacity

-- A device of less than 2 ^ 62 bytes, taken up to an offset within it.
abbrev pub IsSane : VolumeBindingClaim → Type 0
IsSane b = (b.metadata.offset ≤ b.device.capacity) × (b.device.capacity < 4_611_686_018_427_387_904)
